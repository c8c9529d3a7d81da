-- ===== src/Cache/Writes.antt =====
-- DiskCache::WriteSectors as a write to a plain disk.
use scsi2pi.Base.{
  ℕ, ◌+◌, ◌*◌, ◌/◌, ◌%◌, ◌^◌, ◌<◌, ◌≡◌, ◌⊎◌, inl, inr, refl, sym, ap, subst, ◌∙◌, Bool, Bool-cases,
  true, false, arith, none, some, not_leb, not, ◌||◌, leb, if◌then◌else◌,
}
use native.Mathlib.Nat.{one-le-pow}
use mathlib.Core.Option.{some-injective}
use scsi2pi.Cache.Track.{DiskTrack, write_sector, changed, same_bytes}
use scsi2pi.Cache.Disk.{
  DiskCache, Assigned, cache_max, set_track, get_track, write_track, write_assigned, write_sectors,
  Written,
}
use scsi2pi.Cache.Holds.{Holds, with_track}
use scsi2pi.Cache.Changed.{with_sector, changed-Holds, unchanged-Holds}
use scsi2pi.Cache.Loaded.{Represents, Works, tracks_of, set_track-tracks_of}
use scsi2pi.Cache.Stored.{with_track_same}
use scsi2pi.Cache.Filled.{Replaced}
use scsi2pi.Cache.Refined.{same_sector, get_track-outcome, in_track}

-- DiskTrack::WriteSector of a sector of the track.
write_sector_outcome :
    (t : DiskTrack) (buf : ℕ → ℕ) (n : ℕ) (same : Bool)
    → t.is_initialized ≡ true
    → n < t.sector_count
    → same_bytes t buf n ≡ same
    → write_sector t buf n ≡ (if same then t else changed t buf n, 2 ^ t.shift_count)
unfolding write_sector
write_sector_outcome t buf n same initialized in_t e =
    ap
      (λ x.
        if x
        then (t, 0)
        else (if same_bytes t buf n then t else changed t buf n, 2 ^ t.shift_count))
      refused
    ∙ ap (λ x. (if x then t else changed t buf n, 2 ^ t.shift_count)) e
  where
    refused : (not t.is_initialized || leb t.sector_count n) ≡ false
    refused = rw (initialized, not_leb t.sector_count n in_t) refl

-- A write of the sector `b` ended with the result `n`: the sector has the new data, or nothing has
-- changed.
pub record WroteBack (shift blocks : ℕ) (d : ℕ → ℕ) (b : ℕ) (buf : ℕ → ℕ) (e : DiskCache) (n : ℕ)
    : Type 0 where
  pub result :
      ((n ≡ 0) × Represents shift blocks d e)
      ⊎ ((n ≡ 2 ^ shift) × Represents shift blocks (with_sector shift b buf d) e)

Answer : (shift blocks : ℕ) (d : ℕ → ℕ) (b : ℕ) (buf : ℕ → ℕ) (c : DiskCache) (o : Written) → Type 0
Answer shift blocks d b buf c o =
    ((o ≡ none) × ¬ Works c)
    ⊎ ((e : DiskCache) × (n : ℕ) × (o ≡ some (e, n))
        × WroteBack shift blocks d b buf e n
        × (Works c → Works e × (n ≡ 2 ^ shift)))

module _ (shift blocks : ℕ) (d : ℕ → ℕ) (b : ℕ) (buf : ℕ → ℕ) (inside : b < blocks) where
  -- The slot `i` gets the track `u` for `t`.
  set_track-Represents :
      (e : DiskCache) (i : ℕ) (u : DiskTrack) (x : ℕ → ℕ)
      → Represents shift blocks d e
      → Holds shift blocks (with_track i (some u) (tracks_of e)) e.file x
      → Represents shift blocks x (set_track i (some u) e)
  set_track-Represents e i u x r h = record {
    same_shift = r.same_shift;
    same_blocks = r.same_blocks;
    holds = subst (λ ts. Holds shift blocks ts e.file x) (sym (set_track-tracks_of i (some u) e)) h;
  }

  finished :
      (e : DiskCache) (i : ℕ) (t : DiskTrack) (n : ℕ) (u : DiskTrack)
      → t.shift_count ≡ shift
      → write_sector t buf n ≡ (u, 2 ^ t.shift_count)
      → Represents shift blocks (with_sector shift b buf d) (set_track i (some u) e)
      → ((write_sector t buf n).1 ≡ 2 ^ shift)
        × Represents shift blocks
            (with_sector shift b buf d)
            (set_track i (some (write_sector t buf n).0) e)
  finished e i t n u same_shift is_u new = (
    ap (λ x. x.1) is_u ∙ ap (λ x. 2 ^ x) same_shift,
    subst (λ x. Represents shift blocks (with_sector shift b buf d) (set_track i (some x.0) e))
        (sym is_u) new,
  )

  write_sector-Represents :
      (e : DiskCache) (i : ℕ) (t : DiskTrack) (n : ℕ)
      → i < cache_max
      → tracks_of e i ≡ some t
      → Represents shift blocks d e
      → n < t.sector_count
      → t.track_number * 256 + n ≡ b
      → ((write_sector t buf n).1 ≡ 2 ^ shift)
        × Represents shift blocks
            (with_sector shift b buf d)
            (set_track i (some (write_sector t buf n).0) e)
  write_sector-Represents e i t n i_max is_t r in_t at_b =
      let part = r.holds.cached i t i_max is_t in
      elim (Bool-cases (same_bytes t buf n)) [
        | inl same ↦
            finished e i t n t part.shift
              (write_sector_outcome t buf n true part.initialized in_t same)
              (set_track-Represents e i t _ r (
                subst (λ ts. Holds shift blocks ts e.file (with_sector shift b buf d))
                  (sym (with_track_same i t (tracks_of e) is_t))
                  (subst (λ x. Holds shift blocks (tracks_of e) e.file (with_sector shift x buf d))
                    at_b
                    (unchanged-Holds shift blocks i (tracks_of e) e.file d r.holds t i_max is_t buf
                      n in_t same))))
        | inr differ ↦
            finished e i t n (changed t buf n) part.shift
              (write_sector_outcome t buf n false part.initialized in_t differ)
              (set_track-Represents e i (changed t buf n) _ r (
                subst
                  (λ x.
                    Holds shift blocks (with_track i (some (changed t buf n)) (tracks_of e)) e.file
                      (with_sector shift x buf d))
                  at_b
                  (changed-Holds shift blocks i (tracks_of e) e.file d r.holds t i_max is_t buf n
                    in_t)))
      ]

  write_found :
      (c e : DiskCache) (i : ℕ) (t : DiskTrack)
      → i < cache_max
      → tracks_of e i ≡ some t
      → t.track_number ≡ b / 256
      → Represents shift blocks d e
      → (Works c → Works e)
      → Answer shift blocks d b buf c (write_track buf (b % 256) i e (some t))
  unfolding write_track Answer
  write_found c e i t i_max is_t number r works =
      let at_b = same_sector shift blocks d b inside t number in
      let part = r.holds.cached i t i_max is_t in
      let new =
        write_sector-Represents e i t (b % 256) i_max is_t r
          (in_track shift blocks d t part (b % 256) (omega arith)
            (subst (λ x. x < blocks) (sym at_b) inside))
          at_b in
      inr (
        set_track i (some (write_sector t buf (b % 256)).0) e,
        (write_sector t buf (b % 256)).1,
        refl,
        record { result = inr (new.0, new.1) },
        λ w.
            let v = works w in
            (record { sound = v.sound; input = v.input; output = v.output }, new.0),
      )

  write_assigned-Answer :
      (c : DiskCache) (o : Assigned)
      → Replaced shift blocks d (b / 256) c o
      → Answer shift blocks d b buf c (write_assigned buf (b % 256) o)
  unfolding write_assigned Answer
  write_assigned-Answer c o (inl (is_crashed, broken)) =
      inl (ap (write_assigned buf (b % 256)) is_crashed, broken)
  write_assigned-Answer c o (inr (inl lost)) = inr (
    lost.end_cache,
    0,
    ap (write_assigned buf (b % 256)) lost.is_failed,
    record { result = inl (refl, lost.represents) },
    λ w. absurd (lost.broken w),
  )
  write_assigned-Answer c o (inr (inr got)) =
      subst (λ x. Answer shift blocks d b buf c (write_assigned buf (b % 256) x)) (sym got.is_found)
        (subst
          (λ x. Answer shift blocks d b buf c (write_track buf (b % 256) got.slot got.end_cache x))
          (sym got.in_slot)
          (write_found c got.end_cache got.slot got.disktrk got.inside got.in_slot got.number
            got.represents got.still_works))

  write_sectors-Answer :
      (c : DiskCache)
      → Represents shift blocks d c
      → Answer shift blocks d b buf c (write_sectors buf b 1 c)
  unfolding write_sectors
  write_sectors-Answer c r =
      write_assigned-Answer c (get_track b c) (get_track-outcome shift blocks d b inside c r)

-- Whichever transfers the system refuses, by their offset and length, a write of a sector of the
-- disk that returns has either replaced the contents of that sector alone, or returned 0 and changed
-- nothing, as long as no accepted write to the image file is lost when the stream is closed.
pub write_sectors-WroteBack :
    (shift blocks : ℕ) (d : ℕ → ℕ) (b : ℕ) (c e : DiskCache) (buf : ℕ → ℕ) (n : ℕ)
    → b < blocks
    → Represents shift blocks d c
    → write_sectors buf b 1 c ≡ some (e, n)
    → WroteBack shift blocks d b buf e n
unfolding Answer
write_sectors-WroteBack shift blocks d b c e buf n inside r returned =
    elim (write_sectors-Answer shift blocks d b buf inside c r) [
      | inl (crash, _) ↦ absurd (ground (arith, crash, returned))
      | inr (e1, n1, is_some, result, _) ↦
          subst (λ x. WroteBack shift blocks d b buf x.0 x.1)
            (some-injective (e1, n1) (e, n) (sym is_some ∙ returned)) result
    ]

-- Where the system refuses no access to the file, every write of a sector of the disk is accepted
-- and replaces the contents of that sector alone.
pub write_sectors_works :
    (shift blocks : ℕ) (d : ℕ → ℕ) (b : ℕ) (c : DiskCache) (buf : ℕ → ℕ)
    → b < blocks
    → Represents shift blocks d c
    → Works c
    → (e : DiskCache) × (write_sectors buf b 1 c ≡ some (e, 2 ^ shift))
      × Represents shift blocks (with_sector shift b buf d) e
      × Works e
unfolding Answer
write_sectors_works shift blocks d b c buf inside r w =
    elim (write_sectors-Answer shift blocks d b buf inside c r) [
      | inl (_, broken) ↦ absurd (broken w)
      | inr (e, n, is_some, wrote, works) ↦ (
        e,
        is_some ∙ ap (λ x. some (e, x)) (works w).1,
        elim wrote.result [
          | inl (nothing, _) ↦
              absurd (omega (arith, nothing, (works w).1, one-le-pow shift 2 (omega arith)))
          | inr (_, new) ↦ new
        ],
        (works w).0,
      )
    ]
