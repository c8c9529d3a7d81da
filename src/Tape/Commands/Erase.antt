-- ===== src/Tape/Commands/Erase.antt =====
-- cpp/devices/tape.cpp: ERASE and FORMAT MEDIUM.
use scsi2pi.Base.{
  ℕ, zero, suc, ◌+◌, ◌-◌, ◌/◌, ◌%◌, ◌^◌, not, ◌&&◌, ltb, ◌==◌, if◌then◌else◌, get_or, done, stuck,
  pure, modify, gets, throw, ◌>>=◌, ◌>>◌,
}
use scsi2pi.Base.Int.{pos, negsuc, pos_part, neg_part}
use scsi2pi.Base.Words.{add64}
use scsi2pi.Scsi.{SenseKey, Asc}
use scsi2pi.File.{write}
use scsi2pi.Simh.{erase_gap, length_bytes}
use scsi2pi.Tape.{
  Tape, M, ObjectType, Next, status, scsi_exception, check_ready, check_write_preconditions,
  reset_positions,
}
use scsi2pi.Tape.Records.{smaller, write_meta_data, write_failed}
use scsi2pi.Tape.Commands.{invalid_command, cdb_bit}

-- The byte at position `i` of the buffer that Erase writes again and again.
abbrev pub gap_byte : ℕ → ℕ
gap_byte i = get_or (length_bytes erase_gap) (i % 4) 0

abbrev pub erase_buffer_size : ℕ
erase_buffer_size = 4096

-- One write() of Erase, at the put pointer, which stands at `tape_position`.
unfoldable pub erase_chunk : ℕ → M (Unit {0})
erase_chunk chunk t = elim t.tape_position [
  | negsuc p ↦ write_failed t
  | pos p ↦
      if t.file.write_error p chunk
      then write_failed t
      else done tt (record t {
        file = write t.file p chunk gap_byte;
        tape_position = pos (p + chunk);
        object_location = add64 t.object_location (chunk / t.block_size);
      })
]

-- The loop of Erase, with a round of fuel for each chunk.
unfoldable pub erase_loop : ℕ → ℕ → M (Unit {0})
erase_loop zero remaining t = if ltb remaining 4 then done tt t else stuck
erase_loop (suc fuel) remaining t =
    let chunk = smaller remaining erase_buffer_size in
    let rest = (erase_chunk chunk >> erase_loop fuel (remaining - chunk)) t in
    if ltb remaining 4 then done tt t else rest

-- `file_size - tape_position` as a uint64_t.
abbrev pub erase_size : Tape → ℕ
erase_size t = (t.file_size + 2 ^ 64 + neg_part t.tape_position - pos_part t.tape_position) % 2 ^ 64

unfoldable pub erase : ℕ → M (Unit {0})
unfolding erase_loop erase_chunk
erase fuel = do size ← gets erase_size; erase_loop fuel size

unfoldable pub erase_6 : ℕ → M Next
unfolding check_ready check_write_preconditions erase reset_positions write_meta_data
erase_6 fuel = do
  check_ready
  tar ← gets (λ t. t.tar_file)
  if tar then invalid_command else pure tt
  check_write_preconditions
  long ← gets (cdb_bit 1)
  if long then (erase fuel >> modify reset_positions) else pure tt
  write_meta_data ObjectType.end_of_data 0
  pure status

abbrev pub sequential_positioning_error : {A : Type 0} → M A
sequential_positioning_error =
    throw (scsi_exception SenseKey.illegal_request Asc.sequential_positioning_error)

unfoldable pub format_medium : ℕ → M Next
unfolding check_ready check_write_preconditions erase reset_positions write_meta_data
format_medium fuel = do
  check_ready
  tar ← gets (λ t. t.tar_file)
  if tar then invalid_command else pure tt
  check_write_preconditions
  away ← gets (λ t. not (pos_part t.tape_position == 0 && neg_part t.tape_position == 0))
  if away then sequential_positioning_error else pure tt
  erase fuel
  modify reset_positions
  write_meta_data ObjectType.end_of_data 0
  pure status
