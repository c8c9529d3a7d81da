-- ===== src/Cache/Track/Copied.antt =====
-- Sectors copied from one buffer to another, and from the file to the buffer of a track.
use scsi2pi.Base.{
  ℕ, Bool, Bool-cases, true, false, ◌^◌, ◌+◌, ◌-◌, ◌*◌, ◌≤◌, ◌<◌, ◌≡◌, ◌≢◌, ◌⊎◌, inl, inr, refl, ap,
  ◌∙◌, arith, mul_le, block_inside,
}
use scsi2pi.File.{ImageFile, can_read}
use scsi2pi.Cache.Track.{DiskTrack, memcpy, load_track, filled, cleared}

module _ (target source : ℕ → ℕ) (offset n : ℕ) where
  pub memcpy_inside :
      (p : ℕ) → offset ≤ p → p < offset + n → memcpy target offset source n p ≡ source (p - offset)
  memcpy_inside p lo hi = ground arith

  pub memcpy_outside :
      (p : ℕ) → (p < offset) ⊎ (offset + n ≤ p) → memcpy target offset source n p ≡ target p
  memcpy_outside p out = ground arith

-- The sector `a` of `target` is replaced.
module _ (target source : ℕ → ℕ) (size a k : ℕ) where
  pub memcpy_same : k < size → memcpy target (a * size) source size (a * size + k) ≡ source k
  memcpy_same l =
      memcpy_inside target source (a * size) size (a * size + k) (omega arith) (omega arith)
      ∙ ap source (omega arith)

  pub memcpy_other :
      (b : ℕ)
      → a ≢ b
      → k < size
      → memcpy target (a * size) source size (b * size + k) ≡ target (b * size + k)
  memcpy_other b differ l =
      memcpy_outside target source (a * size) size (b * size + k) (elim order [
        | inl less ↦ inl (omega (arith, block_inside size less l))
        | inr more ↦ inr (omega (arith, mul_le size more))
      ])
    where
      order : (b < a) ⊎ (a < b)
      order = omega arith

-- DiskTrack::Load after Init.
module _ (f : ImageFile) (can_open : Bool) (t : DiskTrack) (misses : ℕ)
    (new : t.is_initialized ≡ false) where
  pub load_track_fine :
      can_open ≡ true
      → can_read f (t.track_number * 256 * 2 ^ t.shift_count) (t.sector_count * 2 ^ t.shift_count)
        ≡ true
      → load_track f can_open t misses ≡ (filled f t, true, misses + 1)
  unfolding load_track
  load_track_fine opened fine = rw (new, opened, fine) refl

  pub load_track_fails :
      (can_open ≡ false)
        ⊎ (can_read f
              (t.track_number * 256 * 2 ^ t.shift_count)
              (t.sector_count * 2 ^ t.shift_count)
            ≡ false)
      → load_track f can_open t misses ≡ (cleared t, false, misses + 1)
  unfolding load_track
  load_track_fails (inl closed) = rw (new, closed) refl
  load_track_fails (inr unreadable) = elim (Bool-cases can_open) [
    | inl opened ↦ rw (new, opened, unreadable) refl
    | inr closed ↦ rw (new, closed) refl
  ]
