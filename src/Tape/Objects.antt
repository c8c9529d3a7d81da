-- ===== src/Tape/Objects.antt =====
-- cpp/devices/tape.cpp: reading SIMH objects and searching for them. A search ends at an object of
-- the wanted kind, at the end of the data or of the medium, or at the beginning, so its loops need
-- at most one round for four bytes of the image; they take fuel, and `stuck` means that it ran out.
pub mod Step
pub mod Forward
pub mod Termination
pub mod Located
use scsi2pi.Base.{
  ℕ, zero, suc, ◌+◌, ◌-◌, ◌*◌, ◌/◌, ◌%◌, ◌^◌, Bool, true, false, not, ◌&&◌, ◌||◌, ltb, leb, ◌==◌,
  if◌then◌else◌, Option, none, some, List, get_or, Outcome, done, thrown, stuck, pure, modify, gets,
  ◌>>=◌, ◌>>◌,
}
use scsi2pi.Base.Int.{ℤ, pos, negsuc, ◌+ℤ◌, ◌-ℤ◌, ltb_ℤ, neg_part}
use scsi2pi.Base.Words.{add64, sub64, sub32}
use scsi2pi.Scsi.{SenseKey, Asc}
use scsi2pi.File.{ImageFile}
use scsi2pi.Simh.{
  SimhMetaData, SimhClass, is_record, pad, meta_data_size, private_marker_magic, end_of_medium,
  read_meta_data,
}
use scsi2pi.Tape.{
  Tape, M, ObjectType, scsi_exception, raise_beginning_of_partition, raise_end_of_partition,
  raise_end_of_data, raise_filemark,
}

-- seekg() before the beginning fails, and then so does the read.
abbrev pub read_at : ImageFile → ℤ → Option SimhMetaData
read_at f (pos p) = read_meta_data f p
read_at f (negsuc p) = none

-- What an object takes behind its meta data.
abbrev pub body : SimhMetaData → ℕ
body m = if is_record m then pad m.value + meta_data_size else 0

abbrev pub read_failed : {A : Type 0} → M A
read_failed t =
    thrown (scsi_exception SenseKey.medium_error Asc.read_error)
      (record t { read_error_count = t.read_error_count + 1 })

-- `none` is the beginning of the tape, reached backwards.
unfoldable pub read_next_meta_data : Bool → M (Option SimhMetaData)
read_next_meta_data true t =
    let u = record t { tape_position = t.tape_position -ℤ pos meta_data_size } in
    if ltb_ℤ u.tape_position (pos 0) then done none u else elim (read_at u.file u.tape_position) [
      | none ↦ read_failed u
      | some m ↦ done (some m) (record u { tape_position = u.tape_position -ℤ pos (body m) })
    ]
read_next_meta_data false t = elim (read_at t.file t.tape_position) [
  | none ↦ read_failed t
  | some m ↦ done (some m) (record t { tape_position = t.tape_position +ℤ pos meta_data_size })
]

-- A record, lost data or a tape mark.
abbrev pub is_counted : SimhMetaData → Bool
is_counted m = is_record m || elim m.cls [
  | SimhClass.bad_data_record ↦ m.value == 0
  | SimhClass.tape_mark_good_data_record ↦ m.value == 0
  | _ ↦ false
]

unfoldable pub update_object_location : SimhMetaData → Bool → Tape → Tape
update_object_location m reverse t =
    let moved = if reverse then sub64 t.object_location 1 else add64 t.object_location 1 in
    record t { object_location = if is_counted m then moved else t.object_location }

-- static_cast<ObjectType>((value >> 24) & 0x0f)
abbrev pub object_type : ℕ → ObjectType
object_type n =
    if n == 0b000
    then ObjectType.block
    else if n == 0b001
    then ObjectType.filemark
    else if n == 0b011
    then ObjectType.end_of_data
    else ObjectType.unknown n

pub record Found : Type 0 where
  pub meta_data : SimhMetaData
  pub type : ObjectType
  pub length : ℕ

-- One round of ReadSimhMetaData behind the call of ReadNextMetaData: `none` goes on with the loop.
unfoldable pub classify : SimhMetaData → ℕ → Bool → M (Option Found)
classify m count reverse t = elim m.cls [
  | SimhClass.tape_mark_good_data_record ↦
      done
        (some (record {
          meta_data = m;
          type = if m.value == 0 then ObjectType.filemark else ObjectType.block;
          length = m.value;
        }))
        t
  | SimhClass.bad_data_record ↦
      done (some (record { meta_data = m; type = ObjectType.block; length = m.value })) t
  | SimhClass.reserverd_marker ↦
      if m.value == end_of_medium then raise_end_of_partition (pos count) t else done none t
  | SimhClass.private_marker ↦
      if m.value % 2 ^ 24 == private_marker_magic
      then done
          (some (record { meta_data = m; type = object_type (m.value / 2 ^ 24 % 16); length = 0 }))
          t
      else done none t
  | _ ↦
      if not reverse && is_record m
      then done none (record t { tape_position = t.tape_position +ℤ pos (body m) })
      else done none t
]

-- One round of the loop; behind the loop the beginning of the tape is reported.
unfoldable pub read_simh_round : ℕ → Bool → M (Option Found)
unfolding read_next_meta_data update_object_location classify raise_beginning_of_partition
read_simh_round count reverse t = elim (read_next_meta_data reverse t) [
  | thrown e u ↦ thrown e u
  | stuck ↦ stuck
  | done none u ↦ raise_beginning_of_partition (pos count) u
  | done (some m) u ↦ classify m count reverse (update_object_location m reverse u)
]

unfoldable pub read_simh_meta_data : ℕ → ℕ → Bool → M Found
read_simh_meta_data zero count reverse t = stuck
read_simh_meta_data (suc fuel) count reverse t = elim (read_simh_round count reverse t) [
  | thrown e u ↦ thrown e u
  | stuck ↦ stuck
  | done (some found) u ↦ done found u
  | done none u ↦ read_simh_meta_data fuel count reverse u
]

-- operator== of ObjectType.
unfoldable pub same_type : ObjectType → ObjectType → Bool
same_type ObjectType.block ObjectType.block = true
same_type ObjectType.filemark ObjectType.filemark = true
same_type ObjectType.end_of_data ObjectType.end_of_data = true
same_type (ObjectType.unknown a) (ObjectType.unknown b) = a == b
same_type _ _ = false

abbrev pub is_end_of_data : ObjectType → Bool
is_end_of_data ObjectType.end_of_data = true
is_end_of_data _ = false

abbrev pub is_filemark : ObjectType → Bool
is_filemark ObjectType.filemark = true
is_filemark _ = false

abbrev pub is_block : ObjectType → Bool
is_block ObjectType.block = true
is_block _ = false

-- What FindNextObject does with an object that was found: it ends the search with the object's
-- meta data, or goes on with the count that is left.
pub data Verdict : Type 0 where
  ends : SimhMetaData → Verdict
  goes_on : ℕ → Verdict

-- Skip the data and the trailing length of a record.
unfoldable pub skip_body : Bool → SimhMetaData → Tape → Tape
skip_body reverse m t = record t {
  tape_position =
      if not reverse && is_record m then t.tape_position +ℤ pos (body m) else t.tape_position;
}

unfoldable pub judge : ObjectType → ℕ → Bool → Bool → Found → M Verdict
unfolding skip_body
judge wanted count reverse read found t =
    if read && is_block found.type && found.length == 0
    then done (ends found.meta_data) t
    else let u = skip_body reverse found.meta_data t in
      if is_end_of_data found.type
      then if is_end_of_data wanted
        then done (ends found.meta_data) u
        else raise_end_of_data (pos count) u
      else if is_filemark found.type && is_block wanted
      then raise_filemark count reverse read u
      else if not (is_end_of_data wanted) && same_type found.type wanted
      then if leb count 1 then done (ends found.meta_data) u else done (goes_on (count - 1)) u
      else done (goes_on count) u

-- The loop of FindNextObject. The count is not negative here; `--count; if (count <= 0)` is the
-- test for at most 1 in `judge`.
unfoldable pub find_loop : ℕ → ObjectType → ℕ → Bool → Bool → M SimhMetaData
find_loop zero wanted count reverse read t = stuck
find_loop (suc fuel) wanted count reverse read t =
    elim (read_simh_meta_data (suc fuel) count reverse t) [
      | thrown e u ↦ thrown e u
      | stuck ↦ stuck
      | done found u ↦ elim (judge wanted count reverse read found u) [
        | thrown e v ↦ thrown e v
        | stuck ↦ stuck
        | done (ends m) v ↦ done m v
        | done (goes_on count') v ↦ find_loop fuel wanted count' reverse read v
      ]
    ]

unfoldable pub find_next_object : ℕ → ObjectType → ℤ → Bool → M SimhMetaData
find_next_object fuel wanted (pos count) read = find_loop fuel wanted count false read
find_next_object fuel wanted (negsuc count) read = find_loop fuel wanted (suc count) true read

abbrev pub is_private_marker : SimhMetaData → Bool
is_private_marker m = elim m.cls [
  | SimhClass.private_marker ↦ m.value % 2 ^ 24 == private_marker_magic
  | _ ↦ false
]

-- FindObject. The identifier is a uint32_t that wraps below 0.
unfoldable pub find_object : ℕ → ℕ → M Bool
unfolding skip_body
find_object zero identifier t = stuck
find_object (suc fuel) identifier t = elim (read_simh_meta_data (suc fuel) 0 false t) [
  | thrown e u ↦ thrown e u
  | stuck ↦ stuck
  | done found u ↦
      if is_private_marker found.meta_data
      then done false u
      else let v = skip_body false found.meta_data u in
        elim (is_counted found.meta_data) [
          | true ↦ elim (sub32 identifier 1 == 0) [
            | true ↦ done true v
            | false ↦ find_object fuel (sub32 identifier 1) v
          ]
          | false ↦ find_object fuel identifier u
        ]
]
