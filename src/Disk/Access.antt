-- ===== src/Disk/Access.antt =====
-- cpp/devices/disk.cpp: the commands that read, write, verify and seek, and the transfer of sectors.
use scsi2pi.Base.{
  ℕ, ◌*◌, ◌/◌, ◌%◌, ◌^◌, Bool, true, false, ◌||◌, ltb, leb, ◌==◌, if◌then◌else◌, get_or, Option,
  none, some, Outcome, done, thrown, stuck, ◌>>=◌, ◌>>◌, pure,
}
use scsi2pi.Base.Words.{add64}
use scsi2pi.Scsi.{ScsiException, SenseKey, Asc}
use scsi2pi.Disk.{
  Disk, CacheOps, AccessMode, M, Next, scsi_exception, invalid_field_in_cdb, check_ready,
  check_and_get_start_and_count, check_write_preconditions,
}

-- SetTransferSize and SetCurrentLength of the controller.
abbrev pub set_transfer_size : {S : Type 0} → ℕ → ℕ → Disk S → Disk S
set_transfer_size len size d = record d {
  remaining_length = len;
  chunk_size = if ltb len size then len else size;
}

-- The product of two uint32_t, which becomes an int: lengths of 2 ^ 31 and more are negative there.
abbrev pub mul32 : ℕ → ℕ → ℕ
mul32 a b = a * b % 2 ^ 32

abbrev pub in_range : {S : Type 0} → Disk S → Bool
in_range d = leb (add64 d.next_sector d.sector_transfer_count) d.block_count

abbrev pub medium_error : Asc → ScsiException
medium_error a = scsi_exception SenseKey.medium_error a

-- The number of sectors that are transferred at a time.
abbrev pub chunk_count : Bool → ℕ → ℕ
chunk_count optimized count = if optimized then count else 1

abbrev pub is_write_long : ℕ → Bool
is_write_long command = command == 0x3f || command == 0x9f

abbrev pub is_verify : ℕ → Bool
is_verify command = command == 0x2f || command == 0x8f

module _ {S : Type 0} (ops : CacheOps S) where
  abbrev pub flushed : Option S → Option S
  flushed none = none
  flushed (some c) = some (ops.flush c).0

  -- The result of Flush is ignored.
  unfoldable pub flush_cache : M S (Unit {0})
  flush_cache d = done tt (record d { cache = flushed d.cache })

  -- The cache has been read into the controller's buffer.
  unfoldable pub sectors_read : Disk S → Option (S × (ℕ → ℕ) × ℕ) → Outcome ScsiException (Disk S) ℕ
  sectors_read d none = stuck
  sectors_read d (some (c, buf, n)) =
      let e = record d { cache = some c; buffer = buf } in
      if n == 0
      then thrown (medium_error Asc.read_error) e
      else done (mul32 d.block_size d.sector_transfer_count) (record e {
        next_sector = add64 d.next_sector d.sector_transfer_count;
        sector_read_count = add64 d.sector_read_count d.sector_transfer_count;
      })

  abbrev pub read_from : Disk S → Option S → Outcome ScsiException (Disk S) ℕ
  read_from d none = stuck
  read_from d (some c) =
      sectors_read d (ops.read_sectors d.buffer d.next_sector d.sector_transfer_count c)

  unfoldable pub read_data : M S ℕ
  unfolding check_ready sectors_read
  read_data d = if in_range d then (check_ready >>= λ _ e. read_from e e.cache) d else stuck

  unfoldable pub sectors_written : ℕ → Disk S → Option (S × ℕ) → Outcome ScsiException (Disk S) ℕ
  sectors_written len d none = stuck
  sectors_written len d (some (c, n)) =
      let e = record d { cache = some c } in
      if n == 0
      then thrown (medium_error Asc.write_fault) e
      else done len (record e {
        next_sector = add64 d.next_sector d.sector_transfer_count;
        sector_write_count = add64 d.sector_write_count d.sector_transfer_count;
      })

  abbrev pub long_written : ℕ → Disk S → Option (S × ℕ) → Outcome ScsiException (Disk S) ℕ
  long_written len d none = stuck
  long_written len d (some (c, n)) =
      let e = record d { cache = some c } in
      if n == 0
      then thrown (medium_error Asc.write_fault) e
      else done len (record e { sector_write_count = add64 d.sector_write_count 1 })

  -- A verification compares nothing and does not use the cache.
  unfoldable pub write_to : ℕ → ℕ → Disk S → Option S → Outcome ScsiException (Disk S) ℕ
  unfolding sectors_written
  write_to command len d cache =
      if is_write_long command
      then elim cache [
        | none ↦ stuck
        | some c ↦
            if ops.is_linux c
            then long_written len d (ops.write_long d.buffer d.next_sector d.chunk_size c)
            else stuck
      ]
      else if is_verify command
      then done len (record d {
        next_sector = add64 d.next_sector d.sector_transfer_count;
        sector_write_count = add64 d.sector_write_count d.sector_transfer_count;
      })
      else elim cache [
        | none ↦ stuck
        | some c ↦
            sectors_written len d
              (ops.write_sectors d.buffer d.next_sector d.sector_transfer_count c)
      ]

  -- The data of the host are in the controller's buffer; `command` is the first byte of the CDB.
  unfoldable pub write_data : ℕ → ℕ → M S ℕ
  unfolding check_ready write_to
  write_data command len d =
      if in_range d then (check_ready >>= λ _ e. write_to command len e e.cache) d else stuck

  unfoldable pub start_read : Bool × ℕ × ℕ → M S Next
  unfolding read_data
  start_read (false, start, count) d = done Next.status d
  start_read (true, start, count) d =
      let chunk = chunk_count d.optimized count in
      let e = record (set_transfer_size (mul32 count d.block_size) (mul32 chunk d.block_size) d) {
        next_sector = start;
        sector_transfer_count = chunk;
        current_length = mul32 count d.block_size;
      } in
      (read_data >>= λ n. pure (Next.data_in n)) e

  unfoldable pub read : AccessMode → M S Next
  unfolding check_and_get_start_and_count start_read
  read mode = check_and_get_start_and_count mode >>= start_read

  unfoldable pub write_verify : ℕ → ℕ → Bool → M S Next
  write_verify start count false d = done Next.status d
  write_verify start count true d =
      let chunk = chunk_count d.optimized count in
      done (Next.data_out (mul32 chunk d.block_size))
        (record (set_transfer_size (mul32 count d.block_size) (mul32 chunk d.block_size) d) {
          next_sector = start;
          sector_transfer_count = chunk;
        })

  unfoldable pub write : AccessMode → M S Next
  unfolding check_write_preconditions check_and_get_start_and_count write_verify
  write mode =
      check_write_preconditions
      >> (check_and_get_start_and_count mode >>= λ r. write_verify r.1 r.2 r.0)

  unfoldable pub verify : AccessMode → M S Next
  unfolding check_and_get_start_and_count flush_cache write_verify
  verify mode =
      check_and_get_start_and_count mode >>= λ r. flush_cache >> write_verify r.1 r.2 false

  unfoldable pub seek : AccessMode → M S Next
  unfolding check_and_get_start_and_count
  seek mode = check_and_get_start_and_count mode >>= λ r. pure Next.status

  unfoldable pub synchronize_cache : M S Next
  unfolding flush_cache
  synchronize_cache = flush_cache >> pure Next.status

  -- REZERO and REASSIGN BLOCKS.
  unfoldable pub rezero : M S Next
  unfolding check_ready
  rezero = check_ready >> pure Next.status

  unfoldable pub format_unit : M S Next
  unfolding check_ready
  format_unit = check_ready >>= λ _ d.
      if get_or d.cdb 1 0 / 16 % 2 == 1 then thrown invalid_field_in_cdb d else done Next.status d
