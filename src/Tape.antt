-- ===== src/Tape.antt =====
-- cpp/devices/tape.h and cpp/devices/tape.cpp: a tape drive over a SIMH image or a tar file.
-- The state joins the fields of Tape with those of its base classes and of the controller's
-- transfer. A command handler ends by asking the controller for a phase; that request is its result.
-- Positions are signed, since spacing backwards over damaged objects can lead before the beginning.
pub mod Objects
pub mod Records
pub mod Commands
pub mod Examples
use scsi2pi.Base.{
  ℕ, zero, suc, ◌+◌, ◌-◌, ◌*◌, ◌%◌, Bool, true, false, not, ◌&&◌, ◌||◌, ltb, leb, ◌==◌, ◌^◌,
  if◌then◌else◌, List, get_or, Method, Outcome, done, thrown, stuck, modify, throw, ◌>>=◌, ◌>>◌,
}
use scsi2pi.Base.Int.{ℤ, pos, negsuc, ◌+ℤ◌, ◌-ℤ◌, ltb_ℤ}
use scsi2pi.Base.Words.{add64, sub64, to_int32}
use scsi2pi.Scsi.{ScsiException, SenseKey, Asc, Ascq, StatusCode}
use scsi2pi.File.{ImageFile}
use scsi2pi.Simh.{SimhMetaData, SimhClass, is_record, meta_data_size}
use scsi2pi.Device
use scsi2pi.Primary.{Primary, Action}
use scsi2pi.Primary
use scsi2pi.Controller.Transfer.{Transfer}
use scsi2pi.Memory.{int24_at}

-- enum class ObjectType. A private marker can carry any other code.
pub data ObjectType : Type 0 where
  block filemark end_of_data : ObjectType
  unknown : ℕ → ObjectType

pub record Tape : Type 0 where
  pub primary : Primary
  pub transfer : Transfer
  pub cdb : List ℕ
  pub status : StatusCode
  pub block_size : ℕ
  pub file : ImageFile
  pub current_meta_data : SimhMetaData
  pub tape_position : ℤ
  pub initial : Bool
  pub fixed : Bool
  pub block_size_for_descriptor : ℕ
  pub blocks_read : ℕ
  pub record_start : ℤ
  pub record_length : ℕ
  pub object_location : ℕ
  pub byte_count : ℕ
  pub remaining_count : ℕ
  pub file_size : ℕ
  pub max_file_size : ℕ
  pub tar_file : Bool
  pub expl : Bool
  pub read_error_count : ℕ
  pub write_error_count : ℕ

abbrev pub M : Type 0 → Type 0
M A = Method ScsiException Tape A

-- The phase that a handler asks for.
pub data Next : Type 0 where
  status : Next
  data_in : ℕ → Next
  data_out : ℕ → Next

abbrev pub scsi_exception : SenseKey → Asc → ScsiException
scsi_exception s a = record { sense_key = s; asc = a }

abbrev pub invalid_field_in_cdb : ScsiException
invalid_field_in_cdb = scsi_exception SenseKey.illegal_request Asc.invalid_field_in_cdb

-- A method of the base class.
abbrev pub lift : {A : Type 0} → Action A → M A
lift m t = elim (m t.primary) [
  | done a p ↦ done a (record t { primary = p })
  | thrown e p ↦ thrown e (record t { primary = p })
  | stuck ↦ stuck
]

abbrev pub set_information : ℤ → Tape → Tape
set_information v t = record t { primary = Primary.set_information v t.primary }

unfoldable pub check_ready : M (Unit {0})
unfolding Primary.check_ready
check_ready = lift Primary.check_ready

-- StorageDevice::CheckWritePreconditions
unfoldable pub check_write_preconditions : M (Unit {0})
check_write_preconditions t =
    if t.primary.device.write_protected
    then thrown (scsi_exception SenseKey.data_protect Asc.write_protected) t
    else done tt t

unfoldable pub reset_positions : Tape → Tape
reset_positions t = record t { tape_position = pos 0; object_location = 0 }

-- The REWIND command.
unfoldable pub rewind : M Next
unfolding check_ready reset_positions
rewind = do check_ready; modify reset_positions; λ t. done status t

unfoldable pub get_byte_count : M ℕ
get_byte_count t =
    let u = record t { fixed = get_or t.cdb 1 0 % 2 == 1 } in
    if u.fixed && u.block_size_for_descriptor == 0
    then thrown invalid_field_in_cdb u
    else let len = int24_at u.cdb (if u.expl then 12 else 2) in
      done (if u.fixed then len * u.block_size % 2 ^ 32 else len) u

unfoldable pub raise_beginning_of_partition : {A : Type 0} → ℤ → M A
unfolding reset_positions Primary.set_information Primary.set_eom
raise_beginning_of_partition info t =
    let u = reset_positions t in
    thrown (scsi_exception SenseKey.no_sense Asc.no_additional_sense_information) (record u {
      primary =
          Primary.set_eom Ascq.beginning_of_partition_medium_detected
            (Primary.set_information info u.primary);
    })

unfoldable pub raise_end_of_partition : {A : Type 0} → ℤ → M A
unfolding Primary.set_information Primary.set_eom
raise_end_of_partition info t =
    thrown (scsi_exception SenseKey.medium_error Asc.no_additional_sense_information) (record t {
      primary =
          Primary.set_eom Ascq.end_of_partition_medium_detected
            (Primary.set_information info t.primary);
    })

unfoldable pub raise_end_of_data : {A : Type 0} → ℤ → M A
unfolding Primary.set_information
raise_end_of_data info t =
    thrown (scsi_exception SenseKey.blank_check Asc.no_additional_sense_information) (record t {
      tape_position = t.tape_position -ℤ pos meta_data_size;
      primary = Primary.set_information info t.primary;
    })

-- What RaiseFilemark reports. `info` is not negative.
unfoldable pub filemark_information : ℕ → Bool → Bool → M ℤ
unfolding get_byte_count
filemark_information info reverse read t =
    if read && not t.fixed
    then (get_byte_count >>= λ n u. done (to_int32 n) u) t
    else done (if reverse then pos 0 -ℤ pos info else pos info) t

unfoldable pub raise_filemark : {A : Type 0} → ℕ → Bool → Bool → M A
unfolding Primary.set_information Primary.set_filemark filemark_information
raise_filemark info reverse read = do
  information ← filemark_information info reverse read
  modify (λ t. record t {
    primary = Primary.set_filemark (Primary.set_information information t.primary);
  })
  throw (scsi_exception SenseKey.no_sense Asc.no_additional_sense_information)

unfoldable pub raise_read_error : {A : Type 0} → M A
unfolding Primary.set_information
raise_read_error t = thrown (scsi_exception SenseKey.medium_error Asc.read_error) (record t {
  tape_position = t.tape_position +ℤ pos meta_data_size;
  blocks_read = t.blocks_read + 1;
  read_error_count = t.read_error_count + 1;
  primary =
      Primary.set_information (if t.fixed then pos (t.blocks_read + 1) else to_int32 t.byte_count)
        t.primary;
})

-- The tape at a position that is not negative.
abbrev pub placed : ℕ → Tape → Tape
placed p t = record t { tape_position = pos p }
