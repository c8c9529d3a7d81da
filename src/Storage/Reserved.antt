-- ===== src/Storage/Reserved.antt =====
-- The reservation of image files by START STOP UNIT.
use scsi2pi.Base.{
  ℕ, ◌/◌, ◌%◌, ◌≡◌, ap, ◌∙◌, true, false, ◌==◌, ==_refl, get_or, none, some, thrown, if◌then◌else◌,
}
use scsi2pi.Scsi.{Asc}
use scsi2pi.Storage.{
  Storage, illegal_request, start_stop_unit, start_or_stop, reserve_file, unreserve_file,
  update_files, clean_up, loaded, load_medium, is_some,
}

-- The image file that the device used before its medium was ejected has an owner in the map of
-- reserved files: START STOP UNIT with START and LOEJ fails and leaves the reservation, but when the
-- device is removed after that the reservation of the owner is gone.
pub reservation_lost :
    (s : Storage) (file : ℕ) (owner : ℕ × ℕ)
    → get_or s.cdb 4 0 ≡ 3
    → s.last_filename ≡ some file
    → s.reserved_files file ≡ some owner
    → (t : Storage) × (start_stop_unit s
        ≡ thrown (illegal_request Asc.medium_load_or_eject_failed) t)
      × (t.reserved_files file ≡ some owner)
      × ((clean_up t).reserved_files file ≡ none)
unfolding start_stop_unit start_or_stop reserve_file clean_up unreserve_file update_files
reservation_lost s file owner load last taken = (
  record s { filename = some file },
  ap (λ b. start_or_stop (b % 2 == 1) (b / 2 % 2 == 1) s) load
      ∙ ap (λ f. load_medium f s) last
      ∙ ap
          (λ o. loaded (
            if is_some o then (t, false) else (
              record t { reserved_files = update_files file (some (t.id, t.lun)) t.reserved_files },
              true,
            )))
          taken,
  taken,
  ap (λ b. if b then none else s.reserved_files file) (==_refl file),
)
  where
    t : Storage
    t = record s { filename = some file }
