-- ===== src/Cache/Disk.antt =====
-- cpp/devices/disk_cache.h and cpp/devices/disk_cache.cpp: 16 tracks of an image file, the least
-- recently used of which makes room for another. Where the code would fail an assertion or use a
-- null pointer the result is `crashed`.
use scsi2pi.Base.{
  ℕ, zero, suc, ◌+◌, ◌-◌, ◌*◌, ◌/◌, ◌%◌, ◌^◌, Bool, true, false, not, ◌||◌, ◌&&◌, ltb, leb, ◌==◌,
  if◌then◌else◌, Option, none, some,
}
use scsi2pi.Base.Words.{add32}
use scsi2pi.File.{ImageFile}
use scsi2pi.Cache.Track.{
  DiskTrack, new_track, init_track, load_track, save_track, read_sector, write_sector,
}

pub record CacheData : Type 0 where
  pub disktrk : Option DiskTrack
  pub serial : ℕ

abbrev pub cache_max : ℕ
cache_max = 16

-- `cache` is used below `cache_max`. The image file at `sec_path` can be opened for input and for
-- output where the last two fields say so. The count of write errors, which no code changes, is
-- left out.
pub record DiskCache : Type 0 where
  pub cache : ℕ → CacheData
  pub serial : ℕ
  pub shift_count : ℕ
  pub blocks : ℕ
  pub read_error_count : ℕ
  pub cache_miss_read_count : ℕ
  pub cache_miss_write_count : ℕ
  pub file : ImageFile
  pub opens_input : Bool
  pub opens_output : Bool

-- The shift count of a sector size, searched from `shift` on; `none` where the assertion fails.
unfoldable pub find_shift : ℕ → ℕ → ℕ → Option ℕ
find_shift zero shift size = none
find_shift (suc left) shift size = elim (2 ^ shift == size) [
  | true ↦ some shift
  | false ↦ find_shift left (shift + 1) size
]

-- The members' initial values.
abbrev pub fresh_cache : ImageFile → Bool → Bool → ℕ → ℕ → DiskCache
fresh_cache f opens_input opens_output sectors shift = record {
  cache = λ i. record { disktrk = none; serial = 0 };
  serial = 0;
  shift_count = shift;
  blocks = sectors;
  read_error_count = 0;
  cache_miss_read_count = 0;
  cache_miss_write_count = 0;
  file = f;
  opens_input = opens_input;
  opens_output = opens_output;
}

unfoldable pub with_shift : (ℕ → DiskCache) → Option ℕ → Option DiskCache
with_shift build none = none
with_shift build (some shift) = some (build shift)

-- The constructor: shift counts from 8 to 12 are accepted.
unfoldable pub new_cache : ImageFile → Bool → Bool → ℕ → ℕ → Option DiskCache
unfolding find_shift with_shift
new_cache f opens_input opens_output size sectors =
    with_shift (fresh_cache f opens_input opens_output sectors) (find_shift 5 8 size)

-- Init: the name of the file is not empty.
unfoldable pub init : Bool → DiskCache → Bool
init has_path c = not (c.blocks == 0) && has_path

pub data Assigned : Type 0 where
  crashed : Assigned
  failed : DiskCache → Assigned
  found : DiskCache → ℕ → Assigned

unfoldable pub put : ℕ → CacheData → (ℕ → CacheData) → ℕ → CacheData
put i c slots j = if j == i then c else slots j

abbrev pub set_serial : ℕ → DiskCache → DiskCache
set_serial i c = record c {
  cache = put i (record { disktrk = (c.cache i).disktrk; serial = c.serial }) c.cache;
}

abbrev pub set_track : ℕ → Option DiskTrack → DiskCache → DiskCache
set_track i t c = record c {
  cache = put i (record { disktrk = t; serial = (c.cache i).serial }) c.cache;
}

-- The number of sectors of a track.
abbrev pub track_sectors : ℕ → ℕ → ℕ
track_sectors blocks track = if ltb 256 (blocks - track * 256) then 256 else blocks - track * 256

abbrev pub from_option : Option DiskTrack → DiskTrack
from_option none = new_track
from_option (some t) = t

abbrev pub is_empty : Option DiskTrack → Bool
is_empty none = true
is_empty (some t) = false

-- DiskTrack::Load has been called: use the track or count the error.
abbrev pub loaded : ℕ → DiskCache → DiskTrack × Bool × ℕ → Assigned
loaded i c (t, ok, misses) =
    if ok
    then found (set_track i (some t) (record c { cache_miss_read_count = misses })) i
    else failed
        (record c { cache_miss_read_count = misses; read_error_count = c.read_error_count + 1 })

unfoldable pub load : ℕ → ℕ → Option DiskTrack → DiskCache → Assigned
unfolding load_track put
load i track passed c =
    if not (is_empty (c.cache i).disktrk) || leb c.blocks (track * 256)
    then crashed
    else loaded i c (
        load_track c.file c.opens_input
          (init_track track c.shift_count (track_sectors c.blocks track) (from_option passed))
          c.cache_miss_read_count)

-- DiskTrack::Save of the track in slot `i`, and whether it worked.
abbrev pub saved : ℕ → DiskCache → ImageFile × DiskTrack × Bool × ℕ → DiskCache × Bool
saved i c (f, t, ok, misses) =
    (set_track i (some t) (record c { file = f; cache_miss_write_count = misses }), ok)

unfoldable pub save : ℕ → DiskTrack → DiskCache → DiskCache × Bool
unfolding save_track put
save i t c = saved i c (save_track c.file c.opens_output t c.cache_miss_write_count)

-- The first slot from `i` on, of `left` slots, that passes the test.
unfoldable pub find_slot : (CacheData → Bool) → (ℕ → CacheData) → ℕ → ℕ → Option ℕ
find_slot test slots i zero = none
find_slot test slots i (suc left) = elim (test (slots i)) [
  | true ↦ some i
  | false ↦ find_slot test slots (i + 1) left
]

abbrev pub holds_track : ℕ → CacheData → Bool
holds_track track c = elim c.disktrk [ none ↦ false | some t ↦ t.track_number == track ]

-- Load the track into the first empty slot where that works.
unfoldable pub fill_empty : ℕ → ℕ → ℕ → DiskCache → Assigned
unfolding load put
fill_empty track i zero c = failed c
fill_empty track i (suc left) c = elim (is_empty (c.cache i).disktrk) [
  | false ↦ fill_empty track (i + 1) left c
  | true ↦ elim (load i track none c) [
    | crashed ↦ crashed
    | failed c1 ↦ fill_empty track (i + 1) left c1
    | found c1 k ↦ found (set_serial k c1) k
  ]
]

-- The first slot with the smallest serial number.
unfoldable pub oldest_from : (ℕ → CacheData) → ℕ → ℕ → ℕ → ℕ
oldest_from slots best i zero = best
oldest_from slots best i (suc left) = elim (ltb (slots i).serial (slots best).serial) [
  | true ↦ oldest_from slots i (i + 1) left
  | false ↦ oldest_from slots best (i + 1) left
]

unfoldable pub oldest : DiskCache → ℕ
unfolding oldest_from
oldest c = oldest_from c.cache 0 1 15

-- The saved track leaves its slot and its memory is used for the new one.
abbrev pub reload : ℕ → ℕ → DiskCache × Bool → Assigned
reload i track (c, ok) =
    if ok
    then elim (load i track (c.cache i).disktrk (set_track i none c)) [
      | crashed ↦ crashed
      | failed c1 ↦ failed c1
      | found c1 k ↦ found (set_serial k c1) k
    ]
    else failed c

-- Save the track in the slot `i` and load another one there; a null pointer is used if there is none.
unfoldable pub replace_slot : ℕ → ℕ → DiskCache → Option DiskTrack → Assigned
unfolding load save put
replace_slot i track c none = crashed
replace_slot i track c (some t) = reload i track (save i t c)

unfoldable pub replace_oldest : ℕ → DiskCache → Assigned
unfolding replace_slot oldest
replace_oldest track c = replace_slot (oldest c) track c (c.cache (oldest c)).disktrk

-- Without an empty slot, or where loading into it failed, the oldest track has to go.
unfoldable pub after_fill : ℕ → Assigned → Assigned
unfolding replace_oldest
after_fill track crashed = crashed
after_fill track (found c i) = found c i
after_fill track (failed c) = replace_oldest track c

unfoldable pub assign_slot : ℕ → DiskCache → Option ℕ → Assigned
unfolding fill_empty after_fill put
assign_slot track c (some i) = found (set_serial i c) i
assign_slot track c none = after_fill track (fill_empty track 0 cache_max c)

unfoldable pub assign_track : ℕ → DiskCache → Assigned
unfolding find_slot assign_slot
assign_track track c = assign_slot track c (find_slot (holds_track track) c.cache 0 cache_max)

unfoldable pub update_serial : DiskCache → DiskCache
update_serial c =
    if add32 c.serial 1 == 0
    then record c { serial = 0; cache = λ i. record { disktrk = (c.cache i).disktrk; serial = 0 } }
    else record c { serial = add32 c.serial 1 }

unfoldable pub get_track : ℕ → DiskCache → Assigned
unfolding assign_track update_serial
get_track sector c = assign_track (sector / 256) (update_serial c)

-- The cache, the buffer and the result; `none` where the code would crash.
abbrev pub Read : Type 0
Read = Option (DiskCache × (ℕ → ℕ) × ℕ)

unfoldable pub read_track : (ℕ → ℕ) → ℕ → DiskCache → Option DiskTrack → Read
unfolding read_sector
read_track buf n c none = none
read_track buf n c (some t) = let r = read_sector t buf n in some (c, r.0, r.1)

unfoldable pub read_assigned : (ℕ → ℕ) → ℕ → Assigned → Read
unfolding read_track
read_assigned buf n crashed = none
read_assigned buf n (failed c) = some (c, buf, 0)
read_assigned buf n (found c i) = read_track buf n c (c.cache i).disktrk

unfoldable pub read_sectors : (ℕ → ℕ) → ℕ → ℕ → DiskCache → Read
unfolding get_track read_assigned
read_sectors buf sector count c =
    if count == 1 then read_assigned buf (sector % 256) (get_track sector c) else none

abbrev pub Written : Type 0
Written = Option (DiskCache × ℕ)

-- The track is shared with its slot.
unfoldable pub write_track : (ℕ → ℕ) → ℕ → ℕ → DiskCache → Option DiskTrack → Written
unfolding write_sector put
write_track buf n i c none = none
write_track buf n i c (some t) =
    let w = write_sector t buf n in some (set_track i (some w.0) c, w.1)

unfoldable pub write_assigned : (ℕ → ℕ) → ℕ → Assigned → Written
unfolding write_track
write_assigned buf n crashed = none
write_assigned buf n (failed c) = some (c, 0)
write_assigned buf n (found c i) = write_track buf n i c (c.cache i).disktrk

unfoldable pub write_sectors : (ℕ → ℕ) → ℕ → ℕ → DiskCache → Written
unfolding get_track write_assigned
write_sectors buf sector count c =
    if count == 1 then write_assigned buf (sector % 256) (get_track sector c) else none

unfoldable pub flush_slot : ℕ → DiskCache → Option DiskTrack → DiskCache × Bool
unfolding save put
flush_slot i c none = (c, true)
flush_slot i c (some t) = save i t c

-- Save the tracks of `left` slots from `i` on, up to the first that cannot be saved.
unfoldable pub flush_from : ℕ → ℕ → DiskCache → DiskCache × Bool
unfolding flush_slot
flush_from i zero c = (c, true)
flush_from i (suc left) c = elim (flush_slot i c (c.cache i).disktrk).1 [
  | true ↦ flush_from (i + 1) left (flush_slot i c (c.cache i).disktrk).0
  | false ↦ flush_slot i c (c.cache i).disktrk
]

unfoldable pub flush : DiskCache → DiskCache × Bool
unfolding flush_from
flush c = flush_from 0 cache_max c
