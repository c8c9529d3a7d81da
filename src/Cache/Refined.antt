-- ===== src/Cache/Refined.antt =====
-- DiskCache::GetTrack, and the sector of a track that is then read or written.
use scsi2pi.Base.{
  ℕ, ◌+◌, ◌*◌, ◌/◌, ◌%◌, ◌^◌, ◌<◌, ◌≡◌, ◌==◌, inl, inr, sym, ap, subst, ◌∙◌, Bool-cases, arith,
  not_leb,
}
use scsi2pi.Base.Words.{add32}
use scsi2pi.Cache.Track.{DiskTrack, read_sector, memcpy}
use scsi2pi.Cache.Track.Copied.{memcpy_inside}
use scsi2pi.Cache.Disk.{DiskCache, get_track, update_serial}
use scsi2pi.Cache.Holds.{HoldsTrack}
use scsi2pi.Cache.Kept.{track_sectors_inside}
use scsi2pi.Cache.Loaded.{Represents, Works}
use scsi2pi.Cache.Filled.{Replaced, lifted}
use scsi2pi.Cache.Assigned.{assign_track-outcome}

pub update_serial-Represents :
    (shift blocks : ℕ) (d : ℕ → ℕ) (c : DiskCache)
    → Represents shift blocks d c
    → Represents shift blocks d (update_serial c)
unfolding update_serial
update_serial-Represents shift blocks d c r = elim (Bool-cases (add32 c.serial 1 == 0)) [
  | inl wrapped ↦
      rw wrapped
        (record { same_shift = r.same_shift; same_blocks = r.same_blocks; holds = r.holds })
  | inr more ↦
      rw more (record { same_shift = r.same_shift; same_blocks = r.same_blocks; holds = r.holds })
]

update_serial-Works : (c : DiskCache) → Works c → Works (update_serial c)
unfolding update_serial
update_serial-Works c w = elim (Bool-cases (add32 c.serial 1 == 0)) [
  | inl wrapped ↦ rw wrapped (record { sound = w.sound; input = w.input; output = w.output })
  | inr more ↦ rw more (record { sound = w.sound; input = w.input; output = w.output })
]

-- DiskTrack::ReadSector of a track of the disk.
module _ (shift blocks : ℕ) (d : ℕ → ℕ) (t : DiskTrack) (part : HoldsTrack shift blocks d t) (n : ℕ)
    (few : n < 256) (inside : t.track_number * 256 + n < blocks) where
  pub in_track : n < t.sector_count
  in_track =
      subst (λ x. n < x) (sym part.sectors)
        (track_sectors_inside blocks t.track_number n few inside)

  pub read_sector-content :
      (buf : ℕ → ℕ)
      → ((read_sector t buf n).1 ≡ 2 ^ shift)
        × ((k : ℕ)
            → k < 2 ^ shift
            → (read_sector t buf n).0 k ≡ d ((t.track_number * 256 + n) * 2 ^ shift + k))
  unfolding read_sector
  read_sector-content buf =
      rw (part.initialized, not_leb t.sector_count n in_track)
        (
          ap (λ x. 2 ^ x) part.shift,
          λ k l.
              ap (λ x. memcpy buf 0 (λ p. t.buffer (n * 2 ^ x + p)) (2 ^ x) k) part.shift
              ∙ memcpy_inside buf (λ p. t.buffer (n * 2 ^ shift + p)) 0 (2 ^ shift) k (omega arith)
                  (omega arith)
              ∙ ap t.buffer (omega arith)
              ∙ part.content n k in_track l,
        )

module _ (shift blocks : ℕ) (d : ℕ → ℕ) (b : ℕ) (inside : b < blocks) where
  pub same_sector : (t : DiskTrack) → t.track_number ≡ b / 256 → t.track_number * 256 + b % 256 ≡ b
  same_sector t e = ap (λ x. x * 256 + b % 256) e ∙ omega arith

  pub get_track-outcome :
      (c : DiskCache)
      → Represents shift blocks d c
      → Replaced shift blocks d (b / 256) c (get_track b c)
  unfolding get_track
  get_track-outcome c r = lifted c (update_serial c) _ (update_serial-Works c) (
      assign_track-outcome shift blocks d (b / 256) (update_serial c) (omega arith)
        (update_serial-Represents shift blocks d c r))
