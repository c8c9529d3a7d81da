-- ===== src/Tape/Commands.antt =====
-- cpp/devices/tape.cpp: the handlers of the SCSI commands. Here are LOCATE, READ BLOCK LIMITS and what
-- the handlers share.
pub mod Access
pub mod Erase
pub mod Erasing
pub mod Space
pub mod Filemarks
pub mod Position
use scsi2pi.Base.{
  ℕ, zero, suc, ◌+◌, ◌-◌, ◌*◌, ◌/◌, ◌%◌, ◌^◌, Bool, true, false, not, ◌&&◌, ◌||◌, ltb, leb, ◌==◌,
  if◌then◌else◌, Option, none, some, List, [], ◌∷◌, get_or, set, replicate, length, drop, ◌++◌, min,
  Outcome, done, thrown, stuck, pure, modify, gets, throw, ◌>>=◌, ◌>>◌,
}
use scsi2pi.Base.Int.{ℤ, pos, negsuc, ◌+ℤ◌, ◌-ℤ◌, ltb_ℤ, pos_part, neg_part}
use scsi2pi.Base.Words.{add64, to_int64}
use scsi2pi.Scsi.{SenseKey, Asc}
use scsi2pi.File.{ImageFile, write}
use scsi2pi.Memory.{int24_at, int32_at, int64_at, put16, put32}
use scsi2pi.Simh.{erase_gap, meta_data_size, length_bytes}
use scsi2pi.Primary.{to_uint32}
use scsi2pi.Primary
use scsi2pi.Controller.Transfer.{set_transfer_size, set_current_length}
use scsi2pi.Tape.{
  Tape, M, ObjectType, Next, status, data_in, data_out, scsi_exception, invalid_field_in_cdb,
  set_information, check_ready, check_write_preconditions, reset_positions, get_byte_count,
}
use scsi2pi.Tape.Objects.{find_next_object, find_object}
use scsi2pi.Tape.Records.{
  smaller, write_meta_data, write_end_of_data, write_failed, read_data, advance,
}

abbrev pub invalid_command : {A : Type 0} → M A
invalid_command = throw (scsi_exception SenseKey.illegal_request Asc.invalid_command_operation_code)

abbrev pub cdb_byte : ℕ → Tape → ℕ
cdb_byte i t = get_or t.cdb i 0

-- cdb[1] & mask, for a mask of one bit.
abbrev pub cdb_bit : ℕ → Tape → Bool
cdb_bit mask t = cdb_byte 1 t / mask % 2 == 1

abbrev pub reject_if : (Tape → Bool) → M (Unit {0})
reject_if test t = if test t then thrown invalid_field_in_cdb t else done tt t

abbrev pub set_transfer : ℕ → ℕ → M (Unit {0})
set_transfer len size = modify (λ t. record t { transfer = set_transfer_size len size t.transfer })

-- ResetPositions() and, for an identifier other than 0, FindObject(static_cast<int>(identifier)).
unfoldable pub locate_object : ℕ → ℕ → M Bool
unfolding reset_positions
locate_object fuel identifier = do
  modify reset_positions
  if identifier == 0 then pure true else find_object fuel (identifier % 2 ^ 32)

-- In a tar file the position is set without a look at the file.
unfoldable pub locate_tar : Bool → ℕ → M Bool
locate_tar bt identifier t =
    if bt
    then if identifier % t.block_size == 0
      then done true (record t {
        tape_position = to_int64 identifier;
        object_location = identifier / t.block_size;
      })
      else thrown invalid_field_in_cdb t
    else done true (record t {
      tape_position = to_int64 (identifier * t.block_size % 2 ^ 64);
      object_location = identifier;
    })

-- Locate. The identifier is a uint64_t.
unfoldable pub locate : ℕ → Bool → M Bool
unfolding check_ready locate_tar locate_object
locate fuel locate_16 = do
  check_ready
  reject_if (cdb_bit 2)
  identifier ← gets (λ t. if locate_16 then int64_at t.cdb 4 else int32_at t.cdb 3)
  bt ← gets (cdb_bit 4)
  tar ← gets (λ t. t.tar_file)
  reject_if (λ t. not tar && bt && not (identifier == 0))
  if tar then locate_tar bt identifier else locate_object fuel identifier

-- The LOCATE(10) and LOCATE(16) commands.
unfoldable pub locate_command : ℕ → Bool → M Next
unfolding locate
locate_command fuel locate_16 = do locate fuel locate_16; pure status

abbrev pub locate_failed : {A : Type 0} → M A
locate_failed t =
    thrown (scsi_exception SenseKey.no_sense Asc.locate_operation_failure)
      (set_information (pos (int24_at t.cdb 12)) t)

-- The explicit-address form of READ(16) and WRITE(16) positions the tape first.
unfoldable pub locate_if : ℕ → Bool → M (Unit {0})
unfolding locate Primary.set_information
locate_if fuel explicit = do
  modify (λ t. record t { expl = explicit })
  found ← if explicit then locate fuel true else pure true
  if found then pure tt else locate_failed

unfoldable pub read_block_limits : M Next
read_block_limits t = done (data_in 6) (record t {
  transfer = record t.transfer { buffer = put16 (put32 t.transfer.buffer 0 0x02fffffc) 4 4 };
})
