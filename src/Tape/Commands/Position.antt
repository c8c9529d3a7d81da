-- ===== src/Tape/Commands/Position.antt =====
-- cpp/devices/tape.cpp: READ POSITION.
use scsi2pi.Base.{
  ℕ, ◌+◌, ◌%◌, ◌^◌, ◌&&◌, ◌==◌, if◌then◌else◌, set, replicate, drop, ◌++◌, pure, modify, ◌>>◌,
}
use scsi2pi.Base.Int.{pos, ltb_ℤ, pos_part, neg_part}
use scsi2pi.Memory.{put32}
use scsi2pi.Primary.{to_uint32}
use scsi2pi.Tape.{Tape, M, Next, data_in, check_ready}
use scsi2pi.Tape.Commands.{cdb_bit}

-- The beginning and the end of the partition.
abbrev pub position_flags : Tape → ℕ
position_flags t =
    (if pos_part t.tape_position == 0 && neg_part t.tape_position == 0 then 0x80 else 0)
    + (if ltb_ℤ t.tape_position (pos t.file_size) then 0 else 0x40)

unfoldable pub read_position : M Next
unfolding check_ready
read_position = do
  check_ready
  modify (λ t.
      let bt = cdb_bit 1 t in
      let value = if bt then to_uint32 t.tape_position else t.object_location % 2 ^ 32 in
      let cleared = replicate 20 0 ++ drop 20 t.transfer.buffer in
      let flagged = set cleared 0 (position_flags t) in
      record t { transfer = record t.transfer { buffer = put32 (put32 flagged 4 value) 8 value } })
  pure (data_in 20)
