-- ===== src/Disk/Capacity.antt =====
-- cpp/devices/disk.cpp: the commands that report the size of the disk, and READ and WRITE LONG.
use scsi2pi.Base.{
  ℕ, ◌+◌, ◌-◌, ◌*◌, ◌/◌, ◌%◌, ◌^◌, Bool, true, false, not, ltb, ◌==◌, if◌then◌else◌, List, [], ◌∷◌,
  get_or, Option, none, some, Outcome, done, thrown, stuck, ◌>>=◌, ◌>>◌, pure,
}
use scsi2pi.Base.Words.{add64, sub32, to_int32}
use scsi2pi.Scsi.{ScsiException, SenseKey, Asc}
use scsi2pi.Memory.{int16_at, int32_at}
use scsi2pi.Primary
use scsi2pi.Disk.{
  Disk, CacheOps, AccessMode, M, Next, scsi_exception, invalid_field_in_cdb, check_ready,
  validate_block_address, check_write_preconditions,
}
use scsi2pi.Disk.Access.{set_transfer_size}

-- SetInt32 and SetInt64 in the controller's buffer.
abbrev pub put32 : ℕ → ℕ → (ℕ → ℕ) → ℕ → ℕ
put32 offset value buf p =
    if p == offset
    then value / 2 ^ 24 % 2 ^ 8
    else if p == offset + 1
    then value / 2 ^ 16 % 2 ^ 8
    else if p == offset + 2
    then value / 2 ^ 8 % 2 ^ 8
    else if p == offset + 3
    then value % 2 ^ 8
    else buf p

abbrev pub put64 : ℕ → ℕ → (ℕ → ℕ) → ℕ → ℕ
put64 offset value buf = put32 (offset + 4) value (put32 offset (value / 2 ^ 32) buf)

abbrev pub minimum : ℕ → ℕ → ℕ
minimum a b = if ltb b a then b else a

-- fill_n with zeros.
abbrev pub zeros : ℕ → (ℕ → ℕ) → ℕ → ℕ
zeros n buf p = if ltb p n then 0 else buf p

module _ {S : Type 0} where
  abbrev pub check_medium : M S (Unit {0})
  check_medium d =
      if d.block_count == 0
      then thrown (scsi_exception SenseKey.illegal_request Asc.medium_not_present) d
      else done tt d

  unfoldable pub read_capacity_10 : M S Next
  unfolding check_ready
  read_capacity_10 =
      check_ready
      >> (check_medium >> λ d. done (Next.data_in 8) (record d {
        buffer = put32 4 d.block_size (
            put32 0 (if ltb 0xffffffff (d.block_count - 1) then 0xffffffff else d.block_count - 1)
              d.buffer);
      }))

  unfoldable pub read_capacity_16 : M S Next
  unfolding check_ready
  read_capacity_16 =
      check_ready
      >> (check_medium >> λ d. done (Next.data_in (minimum 32 (int32_at d.cdb 10))) (record d {
        buffer = put32 8 d.block_size (put64 0 (d.block_count - 1) (zeros 32 d.buffer));
      }))

  -- The entries of the supported block sizes, from `offset` on.
  unfoldable pub list_sizes : Disk S → List ℕ → ℕ → (ℕ → ℕ) → (ℕ → ℕ) × ℕ
  list_sizes d [] offset buf = (buf, offset)
  list_sizes d (size ∷ sizes) offset buf = list_sizes d sizes (offset + 8) (
      put32 (offset + 4) size
        (put32 offset (d.block_size * d.block_count % 2 ^ 64 / size % 2 ^ 32) buf))

  abbrev format_capacities : List ℕ → Disk S → (ℕ → ℕ) × ℕ
  format_capacities sizes d =
      let buf = put32 8 d.block_size (put32 4 (d.block_count % 2 ^ 32) d.buffer) in
      if not d.primary.device.read_only then list_sizes d sizes 12 buf else (buf, 12)

  -- `sizes` are the supported block sizes of the type of disk.
  unfoldable pub read_format_capacities : List ℕ → M S Next
  unfolding check_ready list_sizes
  read_format_capacities sizes = check_ready >>= λ _ d.
      let r = format_capacities sizes d in
      done (Next.data_in (minimum r.1 (int16_at d.cdb 7)))
        (record d { buffer = put32 0 (r.1 - 4) r.0 })

  unfoldable pub read_defect_data_10 : M S Next
  read_defect_data_10 d =
      let len = minimum (int16_at d.cdb 7) 4 in
      done (Next.data_in len) (record d { current_length = len; buffer = zeros len d.buffer })

module _ {S : Type 0} (ops : CacheOps S) where
  -- READ and WRITE LONG need a LinuxCache; another one is flushed, whether or not that
  -- works, and replaced.
  abbrev with_linux : Option S → Option S
  with_linux none = some (ops.to_linux none)
  with_linux (some c) =
      if ops.is_linux c then some c else some (ops.to_linux (some (ops.flush c).0))

  abbrev long_read : ℕ → Disk S → Option (S × (ℕ → ℕ) × ℕ) → Outcome ScsiException (Disk S) Next
  long_read length d none = stuck
  long_read length d (some (c, buf, n)) =
      done (Next.data_in n) (record d { cache = some c; buffer = buf })

  abbrev read_long_from : ℕ → ℕ → Disk S → Option S → Outcome ScsiException (Disk S) Next
  read_long_from sector length d none = stuck
  read_long_from sector length d (some c) =
      long_read length d (ops.read_long d.buffer sector length c)

  -- The transfer, once the cache is a LinuxCache.
  unfoldable pub transfer_long : ℕ → ℕ → Bool → M S Next
  transfer_long sector length true d =
      done (Next.data_out length)
        (record (set_transfer_size length length d) { next_sector = sector })
  transfer_long sector length false d =
      let e = record (set_transfer_size length length d) {
        sector_read_count = add64 d.sector_read_count 1;
        current_length = length;
      } in
      read_long_from sector length e e.cache

  abbrev has_linux : Option S → Bool
  has_linux none = false
  has_linux (some c) = ops.is_linux c

  -- The caching mode is LINUX then. A failure of InitCache is ignored; how the new cache behaves
  -- then is a matter of `to_linux`.
  abbrev switch_cache : M S (Unit {0})
  switch_cache d = done tt (record d {
    cache = with_linux d.cache;
    optimized = if has_linux d.cache then d.optimized else false;
  })

  unfoldable pub read_write_long : ℕ → ℕ → Bool → M S Next
  unfolding check_ready transfer_long check_write_preconditions Primary.set_ili
      Primary.set_information
  read_write_long sector length to_medium =
      (if to_medium then check_write_preconditions else pure tt) >> λ d.
      if length == 0
      then done Next.status d
      else if not (length == d.block_size)
      then thrown invalid_field_in_cdb (record d {
        primary =
            Primary.set_information (to_int32 (sub32 length d.block_size))
              (Primary.set_ili d.primary);
      })
      else (switch_cache >> (check_ready >> transfer_long sector length to_medium)) d

  unfoldable pub read_capacity_16_read_long_16 : M S Next
  unfolding read_capacity_16 read_write_long validate_block_address
  read_capacity_16_read_long_16 d =
      if get_or d.cdb 1 0 % 2 ^ 5 == 0x10
      then read_capacity_16 d
      else if get_or d.cdb 1 0 % 2 ^ 5 == 0x11
      then (validate_block_address AccessMode.rw16 >>= λ sector.
            read_write_long sector (int16_at d.cdb 12) false)
          d
      else thrown invalid_field_in_cdb d
