-- ===== src/Storage.antt =====
-- cpp/devices/storage_device.h and cpp/devices/storage_device.cpp: medium, image file and block size
-- of a device with an image file. A file name is a number, and no name is none. The map of reserved
-- files, which all devices share, is a part of the state. FlushCache does not change this part.
pub mod Select
mod Ends
pub mod Selected
pub mod Resized
pub mod Reserved
mod Examples
use scsi2pi.Base.{
  ℕ, ◌+◌, ◌*◌, ◌/◌, ◌%◌, ◌^◌, Bool, true, false, not, ◌&&◌, ◌||◌, ◌==◌, if◌then◌else◌, List, get_or,
  Option, none, some, Method, Outcome, done, thrown, stuck, ◌>>=◌, ◌>>◌, pure,
}
use scsi2pi.Scsi.{ScsiException, SenseKey, Asc}
use scsi2pi.Device.{Device}
use scsi2pi.Device
use scsi2pi.Primary.{Primary}
use scsi2pi.Primary

pub record Storage : Type 0 where
  pub primary : Primary
  pub cdb : List ℕ
  pub id : ℕ
  pub lun : ℕ
  pub filename : Option ℕ
  pub last_filename : Option ℕ
  pub reserved_files : ℕ → Option (ℕ × ℕ)
  pub medium_changed : Bool
  pub block_size : ℕ
  pub configured_block_size : ℕ
  pub supported_block_sizes : ℕ → Bool
  pub blocks : ℕ
  pub block_read_count : ℕ
  pub block_write_count : ℕ

abbrev pub M : Type 0 → Type 0
M A = Method ScsiException Storage A

abbrev pub illegal_request : Asc → ScsiException
illegal_request a = record { sense_key = SenseKey.illegal_request; asc = a }

abbrev pub with_device : Device → Storage → Storage
with_device v s = record s { primary = record s.primary { device = v } }

-- A media change is reported on the next access, but for INQUIRY and REQUEST SENSE. The assertion that
-- the device is removable is left out.
unfoldable pub check_medium_changed : ℕ → M (Unit {0})
check_medium_changed command s =
    if not (command == 0x12) && not (command == 0x03) && s.medium_changed
    then thrown
        (record { sense_key = SenseKey.unit_attention; asc = Asc.not_ready_to_ready_transition })
        (record s { medium_changed = false })
    else done tt s

unfoldable pub update_files : ℕ → Option (ℕ × ℕ) → (ℕ → Option (ℕ × ℕ)) → ℕ → Option (ℕ × ℕ)
update_files file owner files f = if f == file then owner else files f

abbrev pub is_some : Option (ℕ × ℕ) → Bool
is_some none = false
is_some (some x) = true

abbrev pub reserve : Option ℕ → Storage → Storage × Bool
reserve none s = (s, false)
reserve (some file) s = if is_some (s.reserved_files file) then (s, false) else (
  record s { reserved_files = update_files file (some (s.id, s.lun)) s.reserved_files },
  true,
)

unfoldable pub reserve_file : Storage → Storage × Bool
unfolding update_files
reserve_file s = reserve s.filename s

abbrev pub erase_file : Option ℕ → (ℕ → Option (ℕ × ℕ)) → ℕ → Option (ℕ × ℕ)
erase_file none files = files
erase_file (some file) files = update_files file none files

unfoldable pub unreserve_file : Storage → Storage
unfolding update_files
unreserve_file s = record s {
  reserved_files = erase_file s.filename s.reserved_files;
  filename = none;
}

abbrev ejected : Device × Bool → Storage → Storage × Bool
ejected (v, ok) s =
    let t = with_device v s in
    if ok
    then (
      record (unreserve_file (record t { last_filename = t.filename })) {
        block_read_count = 0;
        block_write_count = 0;
      },
      true,
    )
    else (t, false)

unfoldable pub eject : Bool → Storage → Storage × Bool
unfolding unreserve_file Device.eject
eject force s = ejected (Device.eject force s.primary.device) s

abbrev pub load_or_eject_failed : ScsiException
load_or_eject_failed = illegal_request Asc.medium_load_or_eject_failed

abbrev unless_failed : Storage × Bool → Outcome ScsiException Storage (Unit {0})
unless_failed (s, ok) = if ok then done tt s else thrown load_or_eject_failed s

abbrev eject_unless_locked : M (Unit {0})
eject_unless_locked s =
    if s.primary.device.locked then thrown load_or_eject_failed s else unless_failed (eject false s)

abbrev pub loaded : Storage × Bool → Outcome ScsiException Storage (Unit {0})
loaded (s, ok) =
    if ok then done tt (record s { medium_changed = true }) else thrown load_or_eject_failed s

-- SetFilename(last_filename), ReserveFile and SetMediumChanged.
abbrev pub load_medium : Option ℕ → M (Unit {0})
load_medium none s = done tt s
load_medium (some file) s = loaded (reserve_file (record s { filename = some file }))

abbrev set_stopped : Bool → Storage → Storage
set_stopped b s = with_device (record s.primary.device { stopped = b }) s

-- The START and LOEJ bits.
unfoldable pub start_or_stop : Bool → Bool → M (Unit {0})
unfolding reserve_file eject
start_or_stop true true s = load_medium s.last_filename s
start_or_stop true false s = done tt (set_stopped false s)
start_or_stop false true s = eject_unless_locked s
start_or_stop false false s = done tt (set_stopped true s)

unfoldable pub start_stop_unit : M (Unit {0})
unfolding start_or_stop
start_stop_unit s = start_or_stop (get_or s.cdb 4 0 % 2 == 1) (get_or s.cdb 4 0 / 2 % 2 == 1) s

unfoldable pub prevent_allow_medium_removal : M (Unit {0})
unfolding Primary.check_ready
prevent_allow_medium_removal s = elim (Primary.check_ready s.primary) [
  | done a p ↦ done tt (
      with_device (record p.device { locked = get_or s.cdb 4 0 % 2 == 1 })
        (record s { primary = p }))
  | thrown e p ↦ thrown e (record s { primary = p })
  | stuck ↦ stuck
]

unfoldable pub clean_up : Storage → Storage
unfolding unreserve_file
clean_up s = unreserve_file s

unfoldable pub validate_block_size : ℕ → Storage → Bool
validate_block_size size s = s.supported_block_sizes size

unfoldable pub set_configured_block_size : ℕ → Storage → Storage × Bool
unfolding validate_block_size
set_configured_block_size size s =
    if validate_block_size size s
    then (record s { configured_block_size = size }, true)
    else (s, false)

unfoldable pub verify_block_size_change : ℕ → Bool → M ℕ
verify_block_size_change requested temporary s =
    if requested == s.block_size
    then done requested s
    else if not (requested == 0) && requested % 4 == 0 && temporary
    then done requested s
    else thrown (illegal_request Asc.invalid_field_in_parameter_list) s

-- StorageDevice::ChangeBlockSize.
unfoldable pub change_block_size : ℕ → M (Unit {0})
change_block_size size s =
    if size == 0 || (not (s.supported_block_sizes size) && not (size % 4 == 0))
    then thrown (illegal_request Asc.invalid_field_in_parameter_list) s
    else if size == s.block_size
    then done tt s
    else done tt (record s { block_size = size; blocks = s.block_size * s.blocks % 2 ^ 64 / size })

-- Disk::ChangeBlockSize, but for the cache.
unfoldable pub disk_change_block_size : ℕ → M (Unit {0})
unfolding change_block_size
disk_change_block_size size s = if size == s.block_size then done tt s else change_block_size size s

-- ValidateFile of a file whose size can be read.
unfoldable pub validate_file : Bool → Storage → Storage
unfolding Device.set_protected
validate_file writable s =
    let v = s.primary.device in
    let u =
      if writable
      then v
      else Device.set_protected false (record v { read_only = true; protectable = false }) in
    with_device (record u { stopped = false; removed = false; locked = false; ready = true }) s
