-- ===== src/Cache/Linux.antt =====
-- cpp/devices/linux_cache.h and cpp/devices/linux_cache.cpp: direct access to the image file, whose
-- stream stays open. The offset of a seek is a signed 64-bit number and the length of a transfer a
-- signed 32-bit one; with a negative one the transfer fails. `none` is a failed assertion.
use scsi2pi.Base.{
  ℕ, ◌+◌, ◌*◌, ◌%◌, ◌^◌, Bool, true, false, not, ◌&&◌, ◌||◌, ltb, leb, ◌==◌, if◌then◌else◌, Option,
  none, some,
}
use scsi2pi.Base.Words.{add64}
use scsi2pi.File.{ImageFile, can_read, write}
use scsi2pi.Cache.Track.{memcpy}

-- Whether file.flush() fails is the system's choice.
pub record LinuxCache : Type 0 where
  pub file : ImageFile
  pub sector_size : ℕ
  pub sectors : ℕ
  pub write_through : Bool
  pub flush_fails : Bool
  pub read_error_count : ℕ
  pub write_error_count : ℕ

-- Init: the file has a name and can be opened.
unfoldable pub init : Bool → LinuxCache → Bool
init opens c = not (c.sector_size == 0 || c.sectors == 0) && opens

abbrev pub offset_of : LinuxCache → ℕ → ℕ
offset_of c start = c.sector_size * start % 2 ^ 64

abbrev pub is_negative : ℕ → ℕ → Bool
is_negative offset length = leb (2 ^ 63) offset || leb (2 ^ 31) length

unfoldable pub read : (ℕ → ℕ) → ℕ → ℕ → LinuxCache → Option (LinuxCache × (ℕ → ℕ) × ℕ)
read buf start length c =
    if length == 0
    then none
    else if not (is_negative (offset_of c start) length)
        && can_read c.file (offset_of c start) length
    then some (c, memcpy buf 0 (λ i. c.file.at (offset_of c start + i)) length, length)
    else some (record c { read_error_count = c.read_error_count + 1 }, buf, 0)

unfoldable pub flush : LinuxCache → LinuxCache × Bool
flush c =
    if c.flush_fails
    then (record c { write_error_count = c.write_error_count + 1 }, false)
    else (c, true)

abbrev pub can_write : LinuxCache → ℕ → ℕ → Bool
can_write c start length =
    not (is_negative (offset_of c start) length)
    && not (c.file.write_error (offset_of c start) length)

abbrev pub with_data : (ℕ → ℕ) → ℕ → ℕ → LinuxCache → LinuxCache
with_data buf start length c = record c { file = write c.file (offset_of c start) length buf }

abbrev pub flushed : ℕ → LinuxCache × Bool → Option (LinuxCache × ℕ)
flushed length (c, ok) = some (c, if ok then length else 0)

unfoldable pub write_bytes : (ℕ → ℕ) → ℕ → ℕ → LinuxCache → Option (LinuxCache × ℕ)
unfolding flush
write_bytes buf start length c =
    if length == 0
    then none
    else if not (can_write c start length)
    then some (record c { write_error_count = c.write_error_count + 1 }, 0)
    else if c.write_through
    then flushed length (flush (with_data buf start length c))
    else some (with_data buf start length c, length)

unfoldable pub read_sectors : (ℕ → ℕ) → ℕ → ℕ → LinuxCache → Option (LinuxCache × (ℕ → ℕ) × ℕ)
unfolding read
read_sectors buf start count c =
    if ltb c.sectors (add64 start count)
    then some (c, buf, 0)
    else read buf start (c.sector_size * count % 2 ^ 32) c

unfoldable pub write_sectors : (ℕ → ℕ) → ℕ → ℕ → LinuxCache → Option (LinuxCache × ℕ)
unfolding write_bytes
write_sectors buf start count c =
    if ltb c.sectors (add64 start count)
    then some (c, 0)
    else write_bytes buf start (c.sector_size * count % 2 ^ 32) c

unfoldable pub read_long : (ℕ → ℕ) → ℕ → ℕ → LinuxCache → Option (LinuxCache × (ℕ → ℕ) × ℕ)
unfolding read
read_long buf start length c =
    if leb c.sectors start then some (c, buf, 0) else read buf start length c

unfoldable pub write_long : (ℕ → ℕ) → ℕ → ℕ → LinuxCache → Option (LinuxCache × ℕ)
unfolding write_bytes
write_long buf start length c =
    if leb c.sectors start then some (c, 0) else write_bytes buf start length c
