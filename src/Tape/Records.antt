-- ===== src/Tape/Records.antt =====
-- cpp/devices/tape.cpp: writing meta data, and the transfer of the data of a record.
pub mod Limits
use scsi2pi.Base.{
  ℕ, zero, suc, ◌+◌, ◌-◌, ◌*◌, ◌/◌, ◌%◌, ◌^◌, Bool, true, false, not, ◌&&◌, ◌||◌, ltb, leb, ◌==◌,
  if◌then◌else◌, Option, none, some, List, [], ◌∷◌, get_or, length, Outcome, done, thrown, stuck,
  pure, modify, gets, ◌>>=◌, ◌>>◌,
}
use scsi2pi.Base.Int.{ℤ, pos, negsuc, ◌+ℤ◌, ◌-ℤ◌, ltb_ℤ}
use scsi2pi.Base.Words.{add64, sub32, to_int32}
use scsi2pi.Scsi.{SenseKey, Asc, StatusCode}
use scsi2pi.File.{ImageFile, bytes, can_read, write}
use scsi2pi.Simh.{
  SimhMetaData, SimhClass, pad, meta_data_size, private_marker_magic, from_little_endian,
  to_little_endian,
}
use scsi2pi.Primary
use scsi2pi.Controller.Transfer.{overwrite, set_transfer_size, set_current_length}
use scsi2pi.Tape.{Tape, M, ObjectType, scsi_exception, raise_read_error, set_information}
use scsi2pi.Tape.Objects.{find_next_object}

unfoldable pub check_for_overflow : ℤ → M (Unit {0})
check_for_overflow len t =
    if ltb_ℤ (pos t.max_file_size) (t.tape_position +ℤ len)
    then thrown (scsi_exception SenseKey.volume_overflow Asc.no_additional_sense_information)
        (record t { write_error_count = t.write_error_count + 1 })
    else done tt t

abbrev pub write_failed : {A : Type 0} → M A
write_failed t =
    thrown (scsi_exception SenseKey.medium_error Asc.write_error)
      (record t { write_error_count = t.write_error_count + 1 })

-- seekp(), write() of `n` bytes and CheckForWriteError.
abbrev pub write_at : ℤ → ℕ → List ℕ → M (Unit {0})
write_at (pos p) n bs t =
    if t.file.write_error p n
    then write_failed t
    else done tt (record t { file = write t.file p n (λ i. get_or bs i 0) })
write_at (negsuc p) n bs t = write_failed t

-- seekg(), read() of `n` bytes and CheckForReadError.
abbrev pub read_bytes_at : ℤ → ℕ → M (List ℕ)
read_bytes_at (pos p) n t =
    if can_read t.file p n
    then done (bytes t.file p n) t
    else thrown (scsi_exception SenseKey.medium_error Asc.read_error)
        (record t { read_error_count = t.read_error_count + 1 })
read_bytes_at (negsuc p) n t =
    thrown (scsi_exception SenseKey.medium_error Asc.read_error)
      (record t { read_error_count = t.read_error_count + 1 })

abbrev pub advance : ℕ → M (Unit {0})
advance n = modify (λ t. record t { tape_position = t.tape_position +ℤ pos n })

-- The put pointer of the stream stands at `tape_position`.
unfoldable pub write_simh_meta_data : SimhClass → ℕ → M ℕ
unfolding check_for_overflow
write_simh_meta_data cls value = do
  position ← gets (λ t. t.tape_position)
  check_for_overflow (position +ℤ pos meta_data_size)
  write_at position meta_data_size (to_little_endian (record { cls = cls; value = value }))
  pure meta_data_size

abbrev pub end_of_data_value : ℕ
end_of_data_value = 0b011 * 2 ^ 24 + private_marker_magic

-- Ensure that there is always an end-of-data object behind the last position.
unfoldable pub write_end_of_data : M (Unit {0})
unfolding write_simh_meta_data
write_end_of_data t =
    if ltb_ℤ (pos t.file_size) (t.tape_position +ℤ pos meta_data_size)
    then done tt t
    else (write_simh_meta_data SimhClass.private_marker end_of_data_value >>= λ n u. done tt u) t

-- The meta data of a block or a filemark.
unfoldable pub write_object : ℕ → M (Unit {0})
unfolding write_simh_meta_data write_end_of_data
write_object size = do
  n ← write_simh_meta_data SimhClass.tape_mark_good_data_record size
  advance n
  write_end_of_data

-- `size` is below 2 ^ 28 by the assertion.
unfoldable pub write_meta_data : ObjectType → ℕ → M (Unit {0})
unfolding write_object write_end_of_data
write_meta_data ObjectType.block size t = if t.tar_file then done tt t else write_object size t
write_meta_data ObjectType.filemark size t = if t.tar_file then done tt t else write_object size t
write_meta_data _ size t = if t.tar_file then done tt t else write_end_of_data t

unfoldable pub is_at_record_boundary : M Bool
is_at_record_boundary t =
    if t.tar_file
    then done false t
    else done
        (t.fixed
          || t.initial
          || t.remaining_count == 0
          || sub32 t.byte_count t.remaining_count == t.record_length)
        (record t { initial = false })

-- SetIli, SetInformation and SetStatus; the result is the smaller length.
abbrev pub incorrect_length : ℤ → M ℕ
incorrect_length information t =
    done (if ltb t.byte_count t.record_length then t.byte_count else t.record_length) (record t {
      status = StatusCode.check_condition;
      primary = Primary.set_information information (Primary.set_ili t.primary);
    })

-- `record_length` is not 0 where this is called.
unfoldable pub check_block_length : M ℕ
unfolding Primary.set_information Primary.set_ili
check_block_length t =
    if t.record_length == t.byte_count
    then done 0 t
    else if t.fixed && not (t.byte_count % t.record_length == 0)
    then incorrect_length
        (to_int32 (sub32 (sub32 t.byte_count t.remaining_count / t.block_size) t.blocks_read)) t
    else if not t.fixed && (not (get_or t.cdb 1 0 / 2 % 2 == 1) || ltb t.record_length t.byte_count)
    then incorrect_length (to_int32 (sub32 t.byte_count t.record_length)) t
    else done 0 t

-- Data that could not be recovered.
abbrev pub is_lost : SimhMetaData → Bool
is_lost m = elim m.cls [ SimhClass.bad_data_record ↦ m.value == 0 | _ ↦ false ]

abbrev pub check_lost : SimhMetaData → M (Unit {0})
check_lost m t =
    if is_lost m
    then thrown (scsi_exception SenseKey.medium_error Asc.read_error)
        (record t { read_error_count = t.read_error_count + 1 })
    else done tt t

abbrev pub smaller : ℕ → ℕ → ℕ
smaller a b = if ltb a b then a else b

-- A length that does not match shortens the transfer.
unfoldable pub adjust_transfer : ℕ → ℕ → M ℕ
unfolding set_transfer_size set_current_length
adjust_transfer actual len t =
    if actual == 0
    then done len t
    else let count = smaller actual t.byte_count in
      done (smaller actual len) (record t {
        byte_count = count;
        remaining_count = count;
        transfer =
            set_current_length t.block_size (set_transfer_size count t.block_size t.transfer);
      })

-- Go back to the first byte of the record's data, and remember where it is.
abbrev pub enter_record : Tape → Tape
enter_record t =
    let start = t.tape_position -ℤ pos (t.record_length + meta_data_size) in
    record t { tape_position = start; record_start = start }

-- The first part of ReadData, at a record boundary: find the next record. `len` is the controller's
-- chunk size, and the result is the length to be read.
unfoldable pub locate_record : ℕ → ℕ → M ℕ
unfolding check_block_length adjust_transfer
locate_record fuel len = do
  m ← find_next_object fuel ObjectType.block (pos 0) true
  modify (λ t. record t { current_meta_data = m; record_length = m.value })
  check_lost m
  modify enter_record
  actual ← check_block_length
  adjust_transfer actual len

-- The last part of ReadData, at a record boundary: compare the trailing length.
unfoldable pub leave_record : M (Unit {0})
unfolding raise_read_error pad
leave_record = do
  modify (λ t. record t { tape_position = t.record_start +ℤ pos (pad t.record_length) })
  position ← gets (λ t. t.tape_position)
  trailing ← read_bytes_at position meta_data_size
  matching ← gets (λ t. (from_little_endian trailing).value == t.record_length)
  if matching then pure tt else raise_read_error
  advance meta_data_size
  modify (λ t. record t {
    blocks_read = if t.remaining_count == 0 then t.blocks_read + 1 else t.blocks_read;
  })

-- The data go to the front of the controller's buffer.
unfoldable pub transfer_data : ℕ → M (Unit {0})
transfer_data len = do
  position ← gets (λ t. t.tape_position)
  values ← read_bytes_at position len
  modify (λ t. record t {
    transfer = record t.transfer { buffer = overwrite values t.transfer.buffer };
    remaining_count = sub32 t.remaining_count len;
  })
  advance len

unfoldable pub read_data : ℕ → M ℕ
unfolding is_at_record_boundary locate_record transfer_data leave_record
read_data fuel = do
  chunk ← gets (λ t. t.transfer.chunk_size)
  entering ← is_at_record_boundary
  len ← if entering then locate_record fuel chunk else pure chunk
  transfer_data len
  leaving ← is_at_record_boundary
  if leaving then leave_record else pure tt
  pure len

abbrev pub is_odd : ℤ → Bool
is_odd (pos p) = p % 2 == 1
is_odd (negsuc p) = p % 2 == 0

abbrev pub pad_failed : M (Unit {0})
unfolding check_for_overflow
pad_failed = do
  advance 1
  position ← gets (λ u. u.tape_position)
  check_for_overflow (position +ℤ pos meta_data_size)
  write_failed

-- The padding byte. A failure shows at the next check, which is that of the trailing length.
unfoldable pub pad_record : M (Unit {0})
unfolding check_for_overflow
pad_record t =
    if is_odd t.tape_position
    then elim t.tape_position [
      | negsuc p ↦ pad_failed t
      | pos p ↦
          if t.file.write_error p 1
          then pad_failed t
          else (write_at (pos p) 1 (0 ∷ []) >> advance 1) t
    ]
    else done tt t

-- The padding, the trailing length and the count of the object.
unfoldable pub close_record : M (Unit {0})
unfolding pad_record write_simh_meta_data
close_record = do
  pad_record
  size ← gets (λ t. t.record_length)
  n ← write_simh_meta_data SimhClass.tape_mark_good_data_record size
  advance n
  modify (λ t. record t { object_location = add64 t.object_location 1 })

-- WriteData, with the bytes that were received.
unfoldable pub write_data : List ℕ → ℕ → M ℕ
unfolding is_at_record_boundary write_meta_data check_for_overflow transfer_data close_record
write_data values chunk_size = do
  entering ← is_at_record_boundary
  size ← gets (λ t. t.record_length)
  if entering then write_meta_data ObjectType.block size else pure tt
  len ← gets (λ t. smaller t.byte_count chunk_size)
  check_for_overflow (pos len)
  position ← gets (λ t. t.tape_position)
  write_at position len values
  modify (λ t. record t { remaining_count = sub32 t.remaining_count len })
  advance len
  leaving ← is_at_record_boundary
  if leaving then close_record else pure tt
  left ← gets (λ t. t.remaining_count)
  if left == 0 then write_meta_data ObjectType.end_of_data 0 else pure tt
  pure chunk_size
