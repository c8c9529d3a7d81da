-- ===== src/Disk.antt =====
-- cpp/devices/disk.h and cpp/devices/disk.cpp: the state of a disk and the checks of a CDB. The state
-- joins the fields of Disk with those of its base classes and of the controller's transfer, whose
-- buffer is a function here. The cache is an interface. `stuck` stands for a failed assertion, the
-- use of a null pointer or a crash in the cache.
pub mod Access
pub mod Ranges
pub mod Sizes
pub mod Backing
pub mod Reading
pub mod Writing
pub mod Capacity
mod Examples
use scsi2pi.Base.{
  ℕ, zero, suc, ◌+◌, ◌-◌, ◌*◌, ◌%◌, ◌^◌, Bool, true, false, not, ◌&&◌, ◌||◌, ltb, leb, ◌==◌,
  if◌then◌else◌, List, get_or, Option, none, some, Method, Outcome, done, thrown, stuck, modify,
  ◌>>=◌, ◌>>◌,
}
use scsi2pi.Base.Words.{add64}
use scsi2pi.Scsi.{ScsiException, SenseKey, Asc}
use scsi2pi.Memory.{int16_at, int24_at, int32_at, int64_at}
use scsi2pi.Primary.{Primary, Action}
use scsi2pi.Primary

-- class Cache, and what Disk uses of LinuxCache. The results are the cache, the buffer and the
-- number of bytes; `none` is a crash. `to_linux` is the LinuxCache that is
-- made when the old cache, if there is one, has been flushed.
pub record CacheOps (S : Type 0) : Type 0 where
  pub read_sectors : (ℕ → ℕ) → ℕ → ℕ → S → Option (S × (ℕ → ℕ) × ℕ)
  pub write_sectors : (ℕ → ℕ) → ℕ → ℕ → S → Option (S × ℕ)
  pub flush : S → S × Bool
  pub is_linux : S → Bool
  pub to_linux : Option S → S
  pub read_long : (ℕ → ℕ) → ℕ → ℕ → S → Option (S × (ℕ → ℕ) × ℕ)
  pub write_long : (ℕ → ℕ) → ℕ → ℕ → S → Option (S × ℕ)

pub data AccessMode : Type 0 where
  rw6 rw10 rw16 seek6 seek10 : AccessMode

-- `optimized` is caching_mode == LINUX_OPTIMIZED. The last four fields are the controller's.
pub record Disk (S : Type 0) : Type 0 where
  pub primary : Primary
  pub cdb : List ℕ
  pub block_size : ℕ
  pub block_count : ℕ
  pub optimized : Bool
  pub cache : Option S
  pub next_sector : ℕ
  pub sector_transfer_count : ℕ
  pub sector_read_count : ℕ
  pub sector_write_count : ℕ
  pub buffer : ℕ → ℕ
  pub remaining_length : ℕ
  pub chunk_size : ℕ
  pub current_length : ℕ

abbrev pub M : Type 0 → Type 0 → Type 0
M S A = Method ScsiException (Disk S) A

-- The phase that a handler asks for, with the length of the data.
pub data Next : Type 0 where
  status : Next
  data_in : ℕ → Next
  data_out : ℕ → Next

abbrev pub scsi_exception : SenseKey → Asc → ScsiException
scsi_exception s a = record { sense_key = s; asc = a }

abbrev pub invalid_field_in_cdb : ScsiException
invalid_field_in_cdb = scsi_exception SenseKey.illegal_request Asc.invalid_field_in_cdb

abbrev pub lba_out_of_range : ScsiException
lba_out_of_range = scsi_exception SenseKey.illegal_request Asc.lba_out_of_range

unfoldable pub check_ready : {S : Type 0} → M S (Unit {0})
unfolding Primary.check_ready
check_ready d = elim (Primary.check_ready d.primary) [
  | done a p ↦ done a (record d { primary = p })
  | thrown e p ↦ thrown e (record d { primary = p })
  | stuck ↦ stuck
]

-- The start sector and the sector count of a CDB. The LUN bits of a short one are masked.
unfoldable pub start_of : AccessMode → List ℕ → ℕ
start_of AccessMode.rw6 cdb = int24_at cdb 1 % 2 ^ 21
start_of AccessMode.seek6 cdb = int24_at cdb 1 % 2 ^ 21
start_of AccessMode.rw16 cdb = int64_at cdb 2
start_of AccessMode.rw10 cdb = int32_at cdb 2
start_of AccessMode.seek10 cdb = int32_at cdb 2

abbrev short_count : ℕ → ℕ
short_count count = if count == 0 then 256 else count

unfoldable pub count_of : AccessMode → List ℕ → ℕ
count_of AccessMode.rw6 cdb = short_count (get_or cdb 4 0)
count_of AccessMode.seek6 cdb = short_count (get_or cdb 4 0)
count_of AccessMode.rw16 cdb = int32_at cdb 10
count_of AccessMode.rw10 cdb = int16_at cdb 7
count_of AccessMode.seek10 cdb = 0

unfoldable pub is_seek : AccessMode → Bool
is_seek AccessMode.seek6 = true
is_seek AccessMode.seek10 = true
is_seek _ = false

-- Whether there is something to do, the start and the count.
unfoldable pub check_and_get_start_and_count : {S : Type 0} → AccessMode → M S (Bool × ℕ × ℕ)
unfolding check_ready start_of count_of is_seek
check_and_get_start_and_count mode d =
    (check_ready >>= λ _ e.
    let start = start_of mode e.cdb in
    let count = count_of mode e.cdb in
    if e.block_count == 0 || ltb e.block_count (add64 start count)
    then thrown lba_out_of_range e
    else done (not (count == 0) || is_seek mode, start, count) e)
      d

unfoldable pub is_rw10 : AccessMode → Bool
is_rw10 AccessMode.rw10 = true
is_rw10 _ = false

abbrev address_of : AccessMode → List ℕ → ℕ
address_of AccessMode.rw16 cdb = int64_at cdb 2
address_of _ cdb = int32_at cdb 2

unfoldable pub validate_block_address : {S : Type 0} → AccessMode → M S ℕ
unfolding check_ready is_rw10
validate_block_address mode d =
    (check_ready >>= λ _ e.
    if is_rw10 mode && get_or e.cdb 1 0 % 2 == 1
    then thrown invalid_field_in_cdb e
    else if leb e.block_count (address_of mode e.cdb)
    then thrown lba_out_of_range e
    else done (address_of mode e.cdb) e)
      d

-- StorageDevice::CheckWritePreconditions.
unfoldable pub check_write_preconditions : {S : Type 0} → M S (Unit {0})
check_write_preconditions d =
    if d.primary.device.write_protected
    then thrown (scsi_exception SenseKey.data_protect Asc.write_protected) d
    else done tt d
