-- ===== src/Cache/Reads.antt =====
-- DiskCache::ReadSectors as a read of a plain disk.
use scsi2pi.Base.{
  ℕ, ◌+◌, ◌*◌, ◌/◌, ◌%◌, ◌^◌, ◌<◌, ◌≡◌, ◌⊎◌, inl, inr, refl, sym, ap, subst, ◌∙◌, arith, none, some,
}
use mathlib.Core.Option.{some-injective}
use scsi2pi.Cache.Track.{DiskTrack, read_sector}
use scsi2pi.Cache.Disk.{
  DiskCache, Assigned, get_track, read_track, read_assigned, read_sectors, Read,
}
use scsi2pi.Cache.Holds.{HoldsTrack}
use scsi2pi.Cache.Loaded.{Represents, Works}
use scsi2pi.Cache.Filled.{Replaced}
use scsi2pi.Cache.Refined.{same_sector, get_track-outcome, read_sector-content}

-- A read of the sector `b` ended with the result `n`: the out are there, or nothing was read.
pub record ReadBack (shift blocks : ℕ) (d : ℕ → ℕ) (b : ℕ) (e : DiskCache) (buf : ℕ → ℕ) (n : ℕ)
    : Type 0 where
  pub represents : Represents shift blocks d e
  pub result :
      (n ≡ 0) ⊎ ((n ≡ 2 ^ shift) × ((k : ℕ) → k < 2 ^ shift → buf k ≡ d (b * 2 ^ shift + k)))

-- The outcome of a call: it crashed, which takes a file that does not work, or it returned.
Answer : (shift blocks : ℕ) (d : ℕ → ℕ) (b : ℕ) (c : DiskCache) (o : Read) → Type 0
Answer shift blocks d b c o =
    ((o ≡ none) × ¬ Works c)
    ⊎ ((e : DiskCache) × (buf : ℕ → ℕ) × (n : ℕ) × (o ≡ some (e, buf, n))
        × ReadBack shift blocks d b e buf n
        × (Works c → Works e × (n ≡ 2 ^ shift)))

module _ (shift blocks : ℕ) (d : ℕ → ℕ) (b : ℕ) (inside : b < blocks) where
  read_found :
      (c e : DiskCache) (t : DiskTrack) (buf : ℕ → ℕ)
      → HoldsTrack shift blocks d t
      → t.track_number ≡ b / 256
      → Represents shift blocks d e
      → (Works c → Works e)
      → Answer shift blocks d b c (read_track buf (b % 256) e (some t))
  unfolding read_track Answer
  read_found c e t buf part number r works =
      let at_b = same_sector shift blocks d b inside t number in
      let content =
        read_sector-content shift blocks d t part (b % 256) (omega arith)
          (subst (λ x. x < blocks) (sym at_b) inside) buf in
      inr (
        e,
        (read_sector t buf (b % 256)).0,
        (read_sector t buf (b % 256)).1,
        refl,
        record {
          represents = r;
          result = inr (content.0, λ k l. content.1 k l ∙ ap (λ x. d (x * 2 ^ shift + k)) at_b);
        },
        λ w. (works w, content.0),
      )

  read_assigned-Answer :
      (c : DiskCache) (o : Assigned) (buf : ℕ → ℕ)
      → Replaced shift blocks d (b / 256) c o
      → Answer shift blocks d b c (read_assigned buf (b % 256) o)
  unfolding read_assigned Answer
  read_assigned-Answer c o buf (inl (is_crashed, broken)) =
      inl (ap (read_assigned buf (b % 256)) is_crashed, broken)
  read_assigned-Answer c o buf (inr (inl lost)) = inr (
    lost.end_cache,
    buf,
    0,
    ap (read_assigned buf (b % 256)) lost.is_failed,
    record { represents = lost.represents; result = inl refl },
    λ w. absurd (lost.broken w),
  )
  read_assigned-Answer c o buf (inr (inr got)) =
      subst (λ x. Answer shift blocks d b c (read_assigned buf (b % 256) x)) (sym got.is_found)
        (subst (λ x. Answer shift blocks d b c (read_track buf (b % 256) got.end_cache x))
          (sym got.in_slot)
          (read_found c got.end_cache got.disktrk buf
            (got.represents.holds.cached got.slot got.disktrk got.inside got.in_slot) got.number
            got.represents got.still_works))

  read_sectors-Answer :
      (c : DiskCache) (buf : ℕ → ℕ)
      → Represents shift blocks d c
      → Answer shift blocks d b c (read_sectors buf b 1 c)
  unfolding read_sectors
  read_sectors-Answer c buf r =
      read_assigned-Answer c (get_track b c) buf (get_track-outcome shift blocks d b inside c r)

-- Whichever transfers the system refuses, by their offset and length, a read of a sector of the disk
-- that returns has returned the contents of that sector or 0, and the contents of the disk are
-- unchanged, as long as no accepted write to the image file is lost when the stream is closed.
pub read_sectors-ReadBack :
    (shift blocks : ℕ) (d : ℕ → ℕ) (b : ℕ) (c e : DiskCache) (buf out : ℕ → ℕ) (n : ℕ)
    → b < blocks
    → Represents shift blocks d c
    → read_sectors buf b 1 c ≡ some (e, out, n)
    → ReadBack shift blocks d b e out n
unfolding Answer
read_sectors-ReadBack shift blocks d b c e buf out n inside r returned =
    elim (read_sectors-Answer shift blocks d b inside c buf r) [
      | inl (crash, _) ↦ absurd (ground (arith, crash, returned))
      | inr (e1, out1, n1, is_some, result, _) ↦
          subst (λ x. ReadBack shift blocks d b x.0 x.1 x.2)
            (some-injective (e1, out1, n1) (e, out, n) (sym is_some ∙ returned)) result
    ]

-- Where the system refuses no access to the file, every read of a sector of the disk returns the
-- contents of that sector, and the contents of the disk are unchanged.
pub read_sectors_works :
    (shift blocks : ℕ) (d : ℕ → ℕ) (b : ℕ) (c : DiskCache) (buf : ℕ → ℕ)
    → b < blocks
    → Represents shift blocks d c
    → Works c
    → (e : DiskCache) × (out : ℕ → ℕ) × (read_sectors buf b 1 c ≡ some (e, out, 2 ^ shift))
      × ((k : ℕ) → k < 2 ^ shift → out k ≡ d (b * 2 ^ shift + k))
      × Represents shift blocks d e
      × Works e
unfolding Answer
read_sectors_works shift blocks d b c buf inside r w =
    elim (read_sectors-Answer shift blocks d b inside c buf r) [
      | inl (_, broken) ↦ absurd (broken w)
      | inr (e, out, n, is_some, result, works) ↦ (
        e,
        out,
        is_some ∙ ap (λ x. some (e, out, x)) (works w).1,
        λ k l. elim result.result [
          | inl nothing ↦ absurd (omega (arith, nothing, (works w).1, l))
          | inr (_, content) ↦ content k l
        ],
        result.represents,
        (works w).0,
      )
    ]
