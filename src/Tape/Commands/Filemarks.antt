-- ===== src/Tape/Commands/Filemarks.antt =====
-- cpp/devices/tape.cpp: WRITE FILEMARKS.
pub mod Single
pub mod Written
use scsi2pi.Base.{
  ℕ, zero, suc, ◌%◌, ◌^◌, Bool, true, not, ◌&&◌, ◌||◌, ◌==◌, if◌then◌else◌, pure, modify, gets,
  ◌>>=◌, ◌>>◌,
}
use scsi2pi.Memory.{int24_at, int64_at}
use scsi2pi.Primary.{to_uint32}
use scsi2pi.Primary
use scsi2pi.Tape.{
  M, ObjectType, Next, status, check_ready, check_write_preconditions, reset_positions,
}
use scsi2pi.Tape.Objects.{find_object}
use scsi2pi.Tape.Records.{write_meta_data}
use scsi2pi.Tape.Commands.{cdb_byte, cdb_bit, reject_if, locate_failed}

-- The loop that writes the filemarks.
unfoldable pub filemarks : ℕ → M (Unit {0})
unfolding write_meta_data
filemarks zero = pure tt
filemarks (suc n) = write_meta_data ObjectType.filemark 0 >> filemarks n

unfoldable pub locate_for_filemarks : ℕ → M (Unit {0})
unfolding reset_positions Primary.set_information
locate_for_filemarks fuel = do
  identifier ← gets (λ t. int64_at t.cdb 4 % 2 ^ 32)
  found ←
      if identifier == 0 then pure true else (modify reset_positions >> find_object fuel identifier)
  if found then pure tt else locate_failed

-- WRITE FILEMARKS on a SIMH image.
unfoldable pub write_filemarks_simh : ℕ → Bool → M Next
unfolding check_write_preconditions locate_for_filemarks filemarks
write_filemarks_simh fuel write_filemarks_16 = do
  reject_if (λ t.
      cdb_bit 2 t
      || (write_filemarks_16 && (cdb_bit 4 t || cdb_bit 8 t || not (cdb_byte 3 t == 0))))
  check_write_preconditions
  if write_filemarks_16 then locate_for_filemarks fuel else pure tt
  count ← gets (λ t. int24_at t.cdb (if write_filemarks_16 then 12 else 2))
  filemarks count
  pure status

-- On a tar file the command is ignored.
unfoldable pub write_filemarks : ℕ → Bool → M Next
unfolding check_ready write_filemarks_simh
write_filemarks fuel write_filemarks_16 = do
  check_ready
  tar ← gets (λ t. t.tar_file)
  if tar then pure status else write_filemarks_simh fuel write_filemarks_16
