-- ===== src/Cache/Crashes.antt =====
-- The first access to a cache whose image file cannot be read.
use scsi2pi.Base.{
  ℕ, zero, suc, ◌+◌, ◌*◌, ◌/◌, ◌%◌, ◌<◌, ◌≡◌, inl, inr, refl, ap, ◌∙◌, Bool-cases, Option-cases,
  false, arith, none, ◌==◌,
}
use scsi2pi.Base.Words.{add32}
use scsi2pi.Cache.Disk.{
  DiskCache, crashed, failed, cache_max, find_slot, holds_track, fill_empty, after_fill,
  assign_slot, assign_track, replace_slot, replace_oldest, get_track, update_serial, read_assigned,
  read_sectors, oldest,
}
use scsi2pi.Cache.Loaded.{Represents, Absent, refusal, tracks_of}
use scsi2pi.Cache.Slots.{find_slot-some, holds_track_found, oldest-least}
use scsi2pi.Cache.Filled.{fill_refused}
use scsi2pi.Cache.Refined.{update_serial-Represents}

abbrev AllEmpty : DiskCache → Type 0
AllEmpty c = (i : ℕ) → i < cache_max → tracks_of c i ≡ none

module _ (shift blocks : ℕ) (d : ℕ → ℕ) (track : ℕ) (starts : track * 256 < blocks) where
  empty-Absent : (c : DiskCache) → AllEmpty c → Absent track (tracks_of c)
  empty-Absent c empty j u l is_u = ground (arith, empty j l, is_u)

  -- Every slot is tried in vain.
  fill_fails :
      (i left : ℕ) (c : DiskCache)
      → i + left ≡ cache_max
      → Represents shift blocks d c
      → AllEmpty c
      → c.opens_input ≡ false
      → (e : DiskCache) × (fill_empty track i left c ≡ failed e) × AllEmpty e
  unfolding fill_empty
  fill_fails i zero c end r empty closed = (c, refl, empty)
  fill_fails i (suc left) c end r empty closed =
      let is_none = empty i (omega arith) in
      let no =
        refusal shift blocks d c r track (empty-Absent c empty) starts i (omega arith) is_none none
          (inl closed) in
      let rest =
        fill_fails (i + 1) left no.end_cache (omega arith) no.represents
          (λ j l. ap (λ ts. ts j) no.same_tracks ∙ empty j l) (no.same_input ∙ closed) in
      (
        rest.0,
        fill_refused shift blocks d track starts i left c no.end_cache is_none no.is_failed
            ∙ rest.1,
        rest.2,
      )

  nothing_found :
      (c : DiskCache) → AllEmpty c → find_slot (holds_track track) c.cache 0 cache_max ≡ none
  nothing_found c empty = elim (Option-cases (find_slot (holds_track track) c.cache 0 cache_max)) [
    | inl e ↦ e
    | inr (i, e) ↦
        let hit = find_slot-some (holds_track track) c.cache 0 cache_max i e in
        let it = holds_track_found c track i hit.0 in absurd (ground (arith, empty i hit.1, it.1))
  ]

  null_used : (e : DiskCache) → AllEmpty e → after_fill track (failed e) ≡ crashed
  unfolding after_fill replace_oldest replace_slot
  null_used e empty = ap (replace_slot (oldest e) track e) (empty (oldest e) (oldest-least e).0)

  assign_crashes :
      (c : DiskCache)
      → Represents shift blocks d c
      → AllEmpty c
      → c.opens_input ≡ false
      → assign_track track c ≡ crashed
  unfolding assign_track assign_slot
  assign_crashes c r empty closed =
      let full = fill_fails 0 cache_max c refl r empty closed in
      ap (assign_slot track c) (nothing_found c empty)
      ∙ ap (after_fill track) full.1
      ∙ null_used full.0 full.2

update_serial_keeps :
    (c : DiskCache)
    → (tracks_of (update_serial c) ≡ tracks_of c) × ((update_serial c).opens_input ≡ c.opens_input)
unfolding update_serial
update_serial_keeps c = elim (Bool-cases (add32 c.serial 1 == 0)) [
  | inl wrapped ↦ rw wrapped (refl, refl)
  | inr more ↦ rw more (refl, refl)
]

-- If no track is in memory and the image file cannot be opened, the first read crashes: with all
-- slots empty the search for the oldest track ends at a null pointer.
pub read_sectors_crashes :
    (shift blocks : ℕ) (d : ℕ → ℕ) (b : ℕ) (c : DiskCache) (buf : ℕ → ℕ)
    → b < blocks
    → Represents shift blocks d c
    → AllEmpty c
    → c.opens_input ≡ false
    → read_sectors buf b 1 c ≡ none
unfolding read_sectors get_track read_assigned update_serial
read_sectors_crashes shift blocks d b c buf inside r empty closed =
    let kept = update_serial_keeps c in
    ap (read_assigned buf (b % 256)) (
      assign_crashes shift blocks d (b / 256) (omega arith) (update_serial c)
        (update_serial-Represents shift blocks d c r) (λ i l. ap (λ ts. ts i) kept.0 ∙ empty i l)
        (kept.1 ∙ closed))
