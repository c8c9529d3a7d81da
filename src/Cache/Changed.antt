-- ===== src/Cache/Changed.antt =====
-- DiskTrack::WriteSector on a track of the cache: the contents of the disk change in one sector.
use scsi2pi.Base.{
  ℕ, ◌+◌, ◌*◌, ◌^◌, ◌<◌, ◌≡◌, ◌≢◌, inl, inr, refl, sym, ap, subst, ◌∙◌, true, false, arith, Option,
  some, holds_below, holds_below-at, eq-cases, ◌==◌, ==_iff,
}
use scsi2pi.File.{ImageFile}
use scsi2pi.Cache.Track.{DiskTrack, memcpy, changed, same_bytes}
use scsi2pi.Cache.Track.Copied.{memcpy_same, memcpy_other}
use scsi2pi.Cache.Disk.{cache_max, track_sectors}
use scsi2pi.Cache.Holds.{Holds, HoldsTrack, Clean, with_track, with_track_here}
use scsi2pi.Cache.Kept.{replace-Holds, track_sectors_few, Clean-before}

-- The contents of the disk with other data in the sector `b`.
abbrev pub with_sector : (shift b : ℕ) → (ℕ → ℕ) → (ℕ → ℕ) → ℕ → ℕ
with_sector shift b buf d = memcpy d (b * 2 ^ shift) buf (2 ^ shift)

abbrev pub SameDisk : (shift blocks : ℕ) → (ℕ → ℕ) → (ℕ → ℕ) → Type 0
SameDisk shift blocks d e =
    (b k : ℕ) → b < blocks → k < 2 ^ shift → d (b * 2 ^ shift + k) ≡ e (b * 2 ^ shift + k)

pub track_sectors_end :
    (blocks track n : ℕ) → n < track_sectors blocks track → track * 256 + n < blocks
track_sectors_end blocks track n l = ground arith

SameDisk-Holds :
    (shift blocks : ℕ) (tracks : ℕ → Option DiskTrack) (f : ImageFile) (d e : ℕ → ℕ)
    → SameDisk shift blocks d e
    → Holds shift blocks tracks f d
    → Holds shift blocks tracks f e
SameDisk-Holds shift blocks tracks f d e same h = record {
  fits = h.fits;
  durable = h.durable;
  cached = λ i t l is_t.
      let part = h.cached i t l is_t in
      record {
        shift = part.shift;
        initialized = part.initialized;
        starts = part.starts;
        sectors = part.sectors;
        unmodified = part.unmodified;
        content = λ j k m n.
            part.content j k m n
            ∙ same (t.track_number * 256 + j) k
                (track_sectors_end blocks t.track_number j (subst (λ x. j < x) part.sectors m)) n;
      };
  unique = h.unique;
  clean = λ b k l m c. h.clean b k l m c ∙ same b k l m;
}

module _ (shift blocks i : ℕ) (tracks : ℕ → Option DiskTrack) (f : ImageFile) (d : ℕ → ℕ)
    (h : Holds shift blocks tracks f d) (t : DiskTrack) (i_max : i < cache_max)
    (is_t : tracks i ≡ some t) (buf : ℕ → ℕ) (j : ℕ) (inside : j < t.sector_count) where
  inside_256 :
      (u : DiskTrack) → HoldsTrack shift blocks d u → (n : ℕ) → n < u.sector_count → n < 256
  inside_256 u part n l =
      track_sectors_few blocks u.track_number n (subst (λ x. n < x) part.sectors l)

  changed-content :
      (n k : ℕ)
      → n < t.sector_count
      → k < 2 ^ shift
      → (changed t buf j).buffer (n * 2 ^ shift + k)
        ≡ with_sector shift
            (t.track_number * 256 + j)
            buf
            d
            ((t.track_number * 256 + n) * 2 ^ shift + k)
  changed-content n k l m =
      ap (λ x. memcpy t.buffer (j * 2 ^ x) buf (2 ^ x) (n * 2 ^ shift + k)) part.shift
      ∙ elim (eq-cases j n) [
        | inl here ↦
            subst
              (λ x.
                memcpy t.buffer (j * size) buf size (x * size + k)
                ≡ memcpy d ((t.track_number * 256 + j) * size) buf size
                    ((t.track_number * 256 + x) * size + k))
              here
              (memcpy_same t.buffer buf size j k m
                ∙ sym (memcpy_same d buf size (t.track_number * 256 + j) k m))
        | inr away ↦
            memcpy_other t.buffer buf size j k n away m
            ∙ part.content n k l m
            ∙ sym (
                memcpy_other d buf size (t.track_number * 256 + j) k (t.track_number * 256 + n)
                  (λ e. away (omega arith)) m)
      ]
    where
      part : HoldsTrack shift blocks d t
      part = h.cached i t i_max is_t

      size : ℕ
      size = 2 ^ shift

  other_track :
      (n : ℕ) (u : DiskTrack)
      → n < cache_max
      → n ≢ i
      → tracks n ≡ some u
      → HoldsTrack shift blocks (with_sector shift (t.track_number * 256 + j) buf d) u
  other_track n u l away is_u =
      let part = h.cached n u l is_u in
      record {
        shift = part.shift;
        initialized = part.initialized;
        starts = part.starts;
        sectors = part.sectors;
        unmodified = part.unmodified;
        content = λ m k in_u k_l.
            part.content m k in_u k_l
            ∙ sym (
                memcpy_other d buf (2 ^ shift) (t.track_number * 256 + j) k
                  (u.track_number * 256 + m)
                  (λ e. away (
                    h.unique n i u t l i_max is_u is_t (
                      same_number m (inside_256 u part m in_u)
                        (inside_256 t (h.cached i t i_max is_t) j inside) e)))
                  k_l);
      }
    where
      same_number :
          (m : ℕ)
          → m < 256
          → j < 256
          → t.track_number * 256 + j ≡ u.track_number * 256 + m
          → u.track_number ≡ t.track_number
      same_number m a b e = omega arith

  pub changed-Holds :
      Holds shift blocks
        (with_track i (some (changed t buf j)) tracks)
        f
        (with_sector shift (t.track_number * 256 + j) buf d)
  changed-Holds =
      let part = h.cached i t i_max is_t in
      replace-Holds shift blocks i tracks f d h t (changed t buf j) f _ i_max is_t refl
        (omega arith) h.durable
        (record {
          shift = part.shift;
          initialized = part.initialized;
          starts = part.starts;
          sectors = part.sectors;
          unmodified = λ e n. ground arith;
          content = changed-content;
        })
        other_track
        (λ b k l m c.
          h.clean b k l m (
            Clean-before shift blocks i tracks f d h t (some (changed t buf j)) b is_t (flags b c)
              c)
          ∙ sym (memcpy_other d buf (2 ^ shift) (t.track_number * 256 + j) k b (differ b c) m))
    where
      now :
          (b : ℕ)
          → Clean (with_track i (some (changed t buf j)) tracks) b
          → (n : ℕ) → n < 256
          → b ≡ t.track_number * 256 + n
          → (changed t buf j).modified_flags n ≡ false
      now b c n l at_b =
          c i n (changed t buf j) i_max (with_track_here i (some (changed t buf j)) tracks) l at_b

      flags :
          (b : ℕ)
          → Clean (with_track i (some (changed t buf j)) tracks) b
          → (n : ℕ) → n < 256
          → b ≡ t.track_number * 256 + n
          → t.modified_flags n ≡ false
      flags b c n l at_b = ground (arith, now b c n l at_b)

      differ :
          (b : ℕ)
          → Clean (with_track i (some (changed t buf j)) tracks) b
          → t.track_number * 256 + j ≢ b
      differ b c e =
          ground (arith, now b c j (inside_256 t (h.cached i t i_max is_t) j inside) (sym e))

  pub unchanged-Holds :
      same_bytes t buf j ≡ true
      → Holds shift blocks tracks f (with_sector shift (t.track_number * 256 + j) buf d)
  unchanged-Holds same =
      SameDisk-Holds shift blocks tracks f d _
        (λ b k l m. elim (eq-cases (t.track_number * 256 + j) b) [
          | inr away ↦ sym (memcpy_other d buf size (t.track_number * 256 + j) k b away m)
          | inl here ↦
              subst
                (λ x.
                  d (x * size + k)
                  ≡ memcpy d ((t.track_number * 256 + j) * size) buf size (x * size + k))
                here
                (sym (part.content j k inside m)
                  ∙ sym (equal k m)
                  ∙ sym (memcpy_same d buf size (t.track_number * 256 + j) k m))
        ])
        h
    where
      part : HoldsTrack shift blocks d t
      part = h.cached i t i_max is_t

      size : ℕ
      size = 2 ^ shift

      equal : (k : ℕ) → k < 2 ^ shift → buf k ≡ t.buffer (j * 2 ^ shift + k)
      equal k m = (==_iff _ _).0 (
          holds_below-at (λ n. buf n == t.buffer (j * 2 ^ shift + n)) (2 ^ shift) k m
            (subst (λ x. holds_below (λ n. buf n == t.buffer (j * 2 ^ x + n)) (2 ^ x) ≡ true)
              part.shift same))
