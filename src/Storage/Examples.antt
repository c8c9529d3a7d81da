-- ===== src/Storage/Examples.antt =====
-- A device whose medium has been ejected, and whose image file 7 another device has reserved.
use scsi2pi.Base.{
  ℕ, ◌≡◌, ◌⊎◌, refl, arith, false, ◌==◌, if◌then◌else◌, Option, none, some, [], ◌∷◌, done, thrown,
}
use scsi2pi.Scsi.{ScsiException, Asc}
use scsi2pi.Primary.Examples.{at_filemark}
use scsi2pi.Storage.{Storage, illegal_request, start_stop_unit, clean_up}
use scsi2pi.Storage.Select.{mode_select}
use scsi2pi.Storage.Reserved.{reservation_lost}
use scsi2pi.Storage.Selected.{mode_select_ends}
use scsi2pi.Storage.Resized.{mode_select_resizes}

-- START STOP UNIT with START and LOEJ.
abbrev loading : Storage
loading = record {
  primary = at_filemark;
  cdb = 0x1b ∷ 0 ∷ 0 ∷ 0 ∷ 3 ∷ 0 ∷ [];
  id = 0;
  lun = 0;
  filename = none;
  last_filename = some 7;
  reserved_files = λ f. if f == 7 then some (1, 0) else none;
  medium_changed = false;
  block_size = 512;
  configured_block_size = 512;
  supported_block_sizes = λ n. n == 512;
  blocks = 100;
  block_read_count = 0;
  block_write_count = 0;
}

-- MODE SELECT(6) without the PF bit.
abbrev selecting : Storage
selecting = record loading { cdb = 0x15 ∷ 0 ∷ 0 ∷ 0 ∷ 12 ∷ 0 ∷ [] }

-- With the PF bit.
abbrev selecting_pages : Storage
selecting_pages = record loading { cdb = 0x15 ∷ 16 ∷ 0 ∷ 0 ∷ 24 ∷ 0 ∷ [] }

-- A header, and a block descriptor for blocks of 256 bytes.
abbrev parameters : ℕ → ℕ
parameters n = if n == 3 then 8 else if n == 10 then 1 else 0

-- A caching page behind them.
abbrev parameters_and_page : ℕ → ℕ
parameters_and_page n = if n == 12 then 8 else if n == 13 then 10 else parameters n

abbrev caching_page : ℕ → Option ℕ
caching_page n = if n == 8 then some 12 else none

reservation_lost_example :
    (t : Storage) × (start_stop_unit loading
      ≡ thrown (illegal_request Asc.medium_load_or_eject_failed) t)
    × (t.reserved_files 7 ≡ some (1, 0))
    × ((clean_up t).reserved_files 7 ≡ none)
reservation_lost_example = reservation_lost loading 7 (1, 0) refl refl refl

mode_select_ends_example :
    (t : Storage) × ((mode_select caching_page parameters_and_page 24 selecting_pages ≡ done tt t)
      ⊎ ((e : ScsiException) × (mode_select caching_page parameters_and_page 24 selecting_pages
            ≡ thrown e t)))
    × (t.blocks ≡ 100)
mode_select_ends_example = mode_select_ends caching_page parameters_and_page 24 selecting_pages

mode_select_resizes_example :
    mode_select caching_page parameters 12 selecting
    ≡ done tt (record selecting { block_size = 256 })
mode_select_resizes_example =
    mode_select_resizes caching_page parameters selecting refl refl refl refl (omega arith) refl
