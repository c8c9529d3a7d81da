-- ===== src/Tape/Commands/Access.antt =====
-- cpp/devices/tape.cpp: READ and WRITE, up to the transfer of the data.
use scsi2pi.Base.{
  ℕ, ◌%◌, Bool, true, not, ◌&&◌, ◌||◌, ◌==◌, if◌then◌else◌, pure, modify, gets, ◌>>=◌, ◌>>◌,
}
use scsi2pi.Controller.Transfer.{set_transfer_size, set_current_length}
use scsi2pi.Tape.{
  M, Next, status, data_in, data_out, check_ready, check_write_preconditions, get_byte_count,
}
use scsi2pi.Tape.Records.{smaller, read_data}
use scsi2pi.Tape.Commands.{cdb_byte, cdb_bit, reject_if, set_transfer, locate_if}

unfoldable pub start_read : ℕ → M Next
unfolding set_transfer_size set_current_length read_data
start_read fuel = do
  modify (λ t. record t { blocks_read = 0; remaining_count = t.byte_count; initial = true })
  count ← gets (λ t. t.byte_count)
  size ← gets (λ t. t.block_size)
  set_transfer count size
  modify (λ t. record t { transfer = set_current_length size t.transfer })
  n ← read_data fuel
  pure (data_in n)

unfoldable pub read : ℕ → Bool → M Next
unfolding check_ready locate_if get_byte_count start_read
read fuel read_16 = do
  check_ready
  reject_if (λ t. cdb_byte 1 t % 4 == 3 || (read_16 && not (cdb_byte 3 t == 0)))
  locate_if fuel read_16
  count ← get_byte_count
  modify (λ t. record t { byte_count = count })
  if count == 0 then pure status else start_read fuel

unfoldable pub start_write : M Next
unfolding set_transfer_size
start_write = do
  modify (λ t. record t {
    remaining_count = t.byte_count;
    record_length = if t.fixed then t.block_size else t.byte_count;
    initial = true;
  })
  count ← gets (λ t. t.byte_count)
  size ← gets (λ t. smaller t.byte_count t.block_size)
  set_transfer count size
  pure (data_out size)

unfoldable pub write_command : ℕ → Bool → M Next
unfolding check_ready check_write_preconditions locate_if get_byte_count start_write
write_command fuel write_16 = do
  check_ready
  reject_if (λ t. write_16 && (cdb_bit 4 t || cdb_bit 8 t || not (cdb_byte 3 t == 0)))
  check_write_preconditions
  locate_if fuel write_16
  count ← get_byte_count
  modify (λ t. record t { byte_count = count })
  if count == 0 then pure status else start_write
