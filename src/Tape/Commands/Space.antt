-- ===== src/Tape/Commands/Space.antt =====
-- cpp/devices/tape.cpp: SPACE.
use scsi2pi.Base.{
  ℕ, ◌%◌, false, leb, ◌==◌, if◌then◌else◌, done, pure, modify, gets, throw, ◌>>=◌, ◌>>◌,
}
use scsi2pi.Base.Int.{ℤ, pos, ◌-ℤ◌}
use scsi2pi.Memory.{int24_at}
use scsi2pi.Simh.{meta_data_size}
use scsi2pi.Tape.{M, ObjectType, Next, status, invalid_field_in_cdb, check_ready}
use scsi2pi.Tape.Objects.{find_next_object}
use scsi2pi.Tape.Commands.{invalid_command, cdb_byte}

-- The count of SPACE(6) is a signed number of 24 bits.
abbrev pub signed_24 : ℕ → ℤ
signed_24 count = if leb 0x800000 count then pos count -ℤ pos 0x1000000 else pos count

unfoldable pub space_over : ℕ → ObjectType → M (Unit {0})
space_over fuel code t =
    let count = int24_at t.cdb 2 in
    if count == 0
    then done tt t
    else (do find_next_object fuel code (signed_24 count) false; pure tt) t

-- Spacing to the end of the data stops before its object.
unfoldable pub space_to_end : ℕ → M (Unit {0})
space_to_end fuel = do
  find_next_object fuel ObjectType.end_of_data (pos 0) false
  modify (λ t. record t { tape_position = t.tape_position -ℤ pos meta_data_size })

unfoldable pub space_code : ℕ → ℕ → M (Unit {0})
unfolding space_over space_to_end
space_code fuel code =
    if code == 0b000
    then space_over fuel ObjectType.block
    else if code == 0b001
    then space_over fuel ObjectType.filemark
    else if code == 0b011
    then space_to_end fuel
    else throw invalid_field_in_cdb

unfoldable pub space_6 : ℕ → M Next
unfolding check_ready space_code
space_6 fuel = do
  check_ready
  tar ← gets (λ t. t.tar_file)
  if tar then invalid_command else pure tt
  code ← gets (λ t. cdb_byte 1 t % 8)
  space_code fuel code
  pure status
