-- ===== src/Cache/Holds.antt =====
-- What a DiskCache stands for: the contents of a disk, of which the tracks in memory and the image
-- file each hold a part.
use scsi2pi.Base.{
  ℕ, ◌+◌, ◌*◌, ◌^◌, ◌≤◌, ◌<◌, ◌≡◌, ◌≢◌, sym, ◌∙◌, ◌==◌, ◌⊎◌, inl, inr, true, false, arith, Option,
  none, some, if◌then◌else◌,
}
use mathlib.Core.Option.{some-injective}
use scsi2pi.File.{ImageFile, Durable}
use scsi2pi.Cache.Track.{DiskTrack}
use scsi2pi.Cache.Disk.{track_sectors, cache_max}

-- A track that is a part of a disk with the contents `d`.
pub record HoldsTrack (sh blocks : ℕ) (d : ℕ → ℕ) (t : DiskTrack) : Type 0 where
  pub shift : t.shift_count ≡ sh
  pub initialized : t.is_initialized ≡ true
  pub starts : t.track_number * 256 < blocks
  pub sectors : t.sector_count ≡ track_sectors blocks t.track_number
  pub unmodified : t.is_modified ≡ false → (j : ℕ) → t.modified_flags j ≡ false
  pub content :
      (j k : ℕ)
      → j < t.sector_count
      → k < 2 ^ sh
      → t.buffer (j * 2 ^ sh + k) ≡ d ((t.track_number * 256 + j) * 2 ^ sh + k)

-- No track in memory has changed the sector `b`.
abbrev pub Clean : (ℕ → Option DiskTrack) → ℕ → Type 0
Clean tracks b =
    (i j : ℕ) (t : DiskTrack)
    → i < cache_max
    → tracks i ≡ some t
    → j < 256
    → b ≡ t.track_number * 256 + j
    → t.modified_flags j ≡ false

pub record Holds (sh blocks : ℕ) (tracks : ℕ → Option DiskTrack) (f : ImageFile) (d : ℕ → ℕ)
    : Type 0 where
  pub fits : blocks * 2 ^ sh ≤ f.size
  pub durable : Durable f
  pub cached :
      (i : ℕ) (t : DiskTrack) → i < cache_max → tracks i ≡ some t → HoldsTrack sh blocks d t
  pub unique :
      (i j : ℕ) (t u : DiskTrack)
      → i < cache_max
      → j < cache_max
      → tracks i ≡ some t
      → tracks j ≡ some u
      → t.track_number ≡ u.track_number
      → i ≡ j
  pub clean :
      (b k : ℕ)
      → b < blocks
      → k < 2 ^ sh
      → Clean tracks b
      → f.at (b * 2 ^ sh + k) ≡ d (b * 2 ^ sh + k)

-- The tracks where the slot `i` has been given another one.
unfoldable pub with_track : ℕ → Option DiskTrack → (ℕ → Option DiskTrack) → ℕ → Option DiskTrack
with_track i o tracks j = if j == i then o else tracks j

module _ (i : ℕ) (o : Option DiskTrack) (tracks : ℕ → Option DiskTrack) where
  with_track-cases :
      (j : ℕ)
      → ((j ≡ i) × (with_track i o tracks j ≡ o)) ⊎ ((j ≢ i) × (with_track i o tracks j ≡ tracks j))
  unfolding with_track
  with_track-cases j = ground arith

-- Which track a slot has then.
pub with_some-cases :
    (i : ℕ) (t : DiskTrack) (tracks : ℕ → Option DiskTrack) (j : ℕ) {u : DiskTrack}
    → with_track i (some t) tracks j ≡ some u
    → ((j ≡ i) × (t ≡ u)) ⊎ ((j ≢ i) × (tracks j ≡ some u))
with_some-cases i t tracks j e = elim (with_track-cases i (some t) tracks j) [
  | inl (here, new) ↦ inl (here, some-injective _ _ (sym new ∙ e))
  | inr (away, same) ↦ inr (away, sym same ∙ e)
]

pub with_none-cases :
    (i : ℕ) (tracks : ℕ → Option DiskTrack) (j : ℕ) {u : DiskTrack}
    → with_track i none tracks j ≡ some u
    → (j ≢ i) × (tracks j ≡ some u)
with_none-cases i tracks j e = elim (with_track-cases i none tracks j) [
  | inl (here, new) ↦ absurd (ground (arith, new, e))
  | inr (away, same) ↦ (away, sym same ∙ e)
]

-- Another slot keeps its track.
pub with_track_away :
    (i : ℕ) (o : Option DiskTrack) (tracks : ℕ → Option DiskTrack) (j : ℕ)
    → j ≢ i
    → with_track i o tracks j ≡ tracks j
with_track_away i o tracks j away = elim (with_track-cases i o tracks j) [
  | inl (here, _) ↦ absurd (away here)
  | inr (_, same) ↦ same
]

pub with_track_here :
    (i : ℕ) (o : Option DiskTrack) (tracks : ℕ → Option DiskTrack) → with_track i o tracks i ≡ o
unfolding with_track
with_track_here i o tracks = ground arith
