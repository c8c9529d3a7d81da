-- ===== src/Cache/Track.antt =====
-- cpp/devices/disk_track.h and cpp/devices/disk_track.cpp: up to 256 consecutive sectors of an image
-- file in memory. The files are opened for each transfer; whether that works is a parameter.
pub mod Saved
pub mod Copied
use scsi2pi.Base.{
  ℕ, zero, suc, ◌+◌, ◌-◌, ◌*◌, ◌^◌, Bool, true, false, not, ◌||◌, ltb, leb, ◌==◌, ◌&&◌,
  if◌then◌else◌, holds_below,
}
use scsi2pi.File.{ImageFile, can_read, write}

pub record DiskTrack : Type 0 where
  pub track_number : ℕ
  pub shift_count : ℕ
  pub sector_count : ℕ
  pub buffer : ℕ → ℕ
  pub is_initialized : Bool
  pub is_modified : Bool
  pub modified_flags : ℕ → Bool

-- make_shared<DiskTrack>().
abbrev pub new_track : DiskTrack
new_track = record {
  track_number = 0;
  shift_count = 0;
  sector_count = 0;
  buffer = λ i. 0;
  is_initialized = false;
  is_modified = false;
  modified_flags = λ i. false;
}

-- The `n` bytes `source i` replace the bytes at `offset`.
abbrev pub memcpy : (ℕ → ℕ) → ℕ → (ℕ → ℕ) → ℕ → ℕ → ℕ
memcpy target offset source n i =
    if leb offset i && ltb i (offset + n) then source (i - offset) else target i

abbrev pub init_track : ℕ → ℕ → ℕ → DiskTrack → DiskTrack
init_track number shift sectors t = record t {
  track_number = number;
  shift_count = shift;
  sector_count = sectors;
  is_initialized = false;
  is_modified = false;
}

-- Previous tracks are considered to hold 256 sectors.
abbrev pub track_offset : DiskTrack → ℕ
track_offset t = t.track_number * 256 * 2 ^ t.shift_count

abbrev pub cleared : DiskTrack → DiskTrack
cleared t = record t { modified_flags = λ i. false; is_initialized = true; is_modified = false }

abbrev pub filled : ImageFile → DiskTrack → DiskTrack
filled f t = record (cleared t) {
  buffer = memcpy t.buffer 0 (λ i. f.at (track_offset t + i)) (t.sector_count * 2 ^ t.shift_count);
}

-- The track, whether it was loaded, and the number of cache misses. A buffer that could not be
-- read is not used again.
unfoldable pub load_track : ImageFile → Bool → DiskTrack → ℕ → DiskTrack × Bool × ℕ
load_track f can_open t misses =
    if t.is_initialized
    then (t, true, misses)
    else if not can_open
    then (cleared t, false, misses + 1)
    else if can_read f (track_offset t) (t.sector_count * 2 ^ t.shift_count)
    then (filled f t, true, misses + 1)
    else (cleared t, false, misses + 1)

-- The end of the consecutive modified sectors from `j` on, with `left` sectors left.
unfoldable pub run_end : (ℕ → Bool) → ℕ → ℕ → ℕ
run_end flags j zero = j
run_end flags j (suc left) = elim (flags j) [ true ↦ run_end flags (j + 1) left | false ↦ j ]

-- write() of the sectors from `i` up to `j` sets a failure of the stream; nothing is written then.
abbrev pub run_refused : DiskTrack → ImageFile → ℕ → ℕ → Bool
run_refused t f i j =
    f.write_error (track_offset t + i * 2 ^ t.shift_count) ((j - i) * 2 ^ t.shift_count)

-- The stream takes the bytes, but they fail when the stream is closed, which Save does not see.
abbrev pub run_lost : DiskTrack → ImageFile → ℕ → ℕ → Bool
run_lost t f i j =
    f.write_lost (track_offset t + i * 2 ^ t.shift_count) ((j - i) * 2 ^ t.shift_count)

abbrev pub write_run : DiskTrack → ImageFile → ℕ → ℕ → ImageFile
write_run t f i j =
    write f (track_offset t + i * 2 ^ t.shift_count) ((j - i) * 2 ^ t.shift_count)
      (λ p. t.buffer (i * 2 ^ t.shift_count + p))

-- The loop that writes the modified sectors from `i` on; false also where the fuel ran out.
unfoldable pub save_from : DiskTrack → ℕ → ℕ → ImageFile → ImageFile × Bool
unfolding run_end
save_from t zero i f = (f, leb t.sector_count i)
save_from t (suc fuel) i f = elim (ltb i t.sector_count) [
  | false ↦ (f, true)
  | true ↦ elim (t.modified_flags i) [
    | false ↦ save_from t fuel (i + 1) f
    | true ↦
        let j = run_end t.modified_flags i (t.sector_count - i) in
        elim (run_refused t f i j) [
          | true ↦ (f, false)
          | false ↦ save_from t fuel j (if run_lost t f i j then f else write_run t f i j)
        ]
  ]
]

abbrev pub saved_track : DiskTrack → DiskTrack
saved_track t = record t { modified_flags = λ i. false; is_modified = false }

-- The file, the track, whether it was saved, and the number of cache misses.
unfoldable pub save_track : ImageFile → Bool → DiskTrack → ℕ → ImageFile × DiskTrack × Bool × ℕ
unfolding save_from
save_track f can_open t misses =
    if not t.is_initialized || not t.is_modified
    then (f, t, true, misses)
    else if not can_open
    then (f, t, false, misses + 1)
    else let r = save_from t t.sector_count 0 f in
      (r.0, if r.1 then saved_track t else t, r.1, misses + 1)

-- The buffer after the call, and the result.
unfoldable pub read_sector : DiskTrack → (ℕ → ℕ) → ℕ → (ℕ → ℕ) × ℕ
read_sector t buf sector = if not t.is_initialized || leb t.sector_count sector then (buf, 0) else (
  memcpy buf 0 (λ k. t.buffer (sector * 2 ^ t.shift_count + k)) (2 ^ t.shift_count),
  2 ^ t.shift_count,
)

abbrev pub changed : DiskTrack → (ℕ → ℕ) → ℕ → DiskTrack
changed t buf sector = record t {
  buffer = memcpy t.buffer (sector * 2 ^ t.shift_count) buf (2 ^ t.shift_count);
  modified_flags = λ i. if i == sector then true else t.modified_flags i;
  is_modified = true;
}

-- memcmp() of the sector and the new data finds no difference.
abbrev pub same_bytes : DiskTrack → (ℕ → ℕ) → ℕ → Bool
same_bytes t buf sector =
    holds_below (λ k. buf k == t.buffer (sector * 2 ^ t.shift_count + k)) (2 ^ t.shift_count)

unfoldable pub write_sector : DiskTrack → (ℕ → ℕ) → ℕ → DiskTrack × ℕ
unfolding holds_below
write_sector t buf sector =
    if not t.is_initialized || leb t.sector_count sector
    then (t, 0)
    else (if same_bytes t buf sector then t else changed t buf sector, 2 ^ t.shift_count)
