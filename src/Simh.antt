-- ===== src/Simh.antt =====
-- cpp/shared/simh_util.h and cpp/shared/simh_util.cpp: the objects of a SIMH tape image. Each
-- begins with four bytes of meta data, little endian: a class in the top four bits, a value below.
pub mod Codec
pub mod Records
pub mod Examples
use scsi2pi.Base.{
  ℕ, ◌+◌, ◌*◌, ◌/◌, ◌%◌, ◌^◌, Bool, true, false, not, Option, none, some, List, [], ◌∷◌, ltb, ◌==◌,
  ◌&&◌, ◌||◌, if◌then◌else◌, get_or,
}
use scsi2pi.File.{ImageFile, can_read, bytes, write, write_list}

-- enum class SimhClass
pub data SimhClass : Type 0 where
  tape_mark_good_data_record private_data_record_1 private_data_record_2 : SimhClass
  private_data_record_3 private_data_record_4 private_data_record_5 : SimhClass
  private_data_record_6 private_marker bad_data_record reserved_data_record_1 : SimhClass
  reserved_data_record_2 reserved_data_record_3 reserved_data_record_4 : SimhClass
  reserved_data_record_5 tape_description_data_record reserverd_marker : SimhClass

unfoldable pub class_value : SimhClass → ℕ
class_value SimhClass.tape_mark_good_data_record = 0
class_value SimhClass.private_data_record_1 = 1
class_value SimhClass.private_data_record_2 = 2
class_value SimhClass.private_data_record_3 = 3
class_value SimhClass.private_data_record_4 = 4
class_value SimhClass.private_data_record_5 = 5
class_value SimhClass.private_data_record_6 = 6
class_value SimhClass.private_marker = 7
class_value SimhClass.bad_data_record = 8
class_value SimhClass.reserved_data_record_1 = 9
class_value SimhClass.reserved_data_record_2 = 10
class_value SimhClass.reserved_data_record_3 = 11
class_value SimhClass.reserved_data_record_4 = 12
class_value SimhClass.reserved_data_record_5 = 13
class_value SimhClass.tape_description_data_record = 14
class_value SimhClass.reserverd_marker = 15

-- static_cast<SimhClass> of a value below 16.
unfoldable pub class_of : ℕ → SimhClass
class_of n =
    if n == 0
    then SimhClass.tape_mark_good_data_record
    else if n == 1
    then SimhClass.private_data_record_1
    else if n == 2
    then SimhClass.private_data_record_2
    else if n == 3
    then SimhClass.private_data_record_3
    else if n == 4
    then SimhClass.private_data_record_4
    else if n == 5
    then SimhClass.private_data_record_5
    else if n == 6
    then SimhClass.private_data_record_6
    else if n == 7
    then SimhClass.private_marker
    else if n == 8
    then SimhClass.bad_data_record
    else if n == 9
    then SimhClass.reserved_data_record_1
    else if n == 10
    then SimhClass.reserved_data_record_2
    else if n == 11
    then SimhClass.reserved_data_record_3
    else if n == 12
    then SimhClass.reserved_data_record_4
    else if n == 13
    then SimhClass.reserved_data_record_5
    else if n == 14
    then SimhClass.tape_description_data_record
    else SimhClass.reserverd_marker

-- enum class SimhMarker and PRIVATE_MARKER_MAGIC
abbrev pub erase_gap : ℕ
erase_gap = 0xffffffe

abbrev pub end_of_medium : ℕ
end_of_medium = 0xfffffff

abbrev pub private_marker_magic : ℕ
private_marker_magic = 0x00533250

abbrev pub meta_data_size : ℕ
meta_data_size = 4

pub record SimhMetaData : Type 0 where
  pub cls : SimhClass
  pub value : ℕ

unfoldable pub is_record : SimhMetaData → Bool
is_record m = elim m.cls [
  | SimhClass.tape_mark_good_data_record ↦ not (m.value == 0)
  | SimhClass.bad_data_record ↦ not (m.value == 0)
  | SimhClass.private_marker ↦ false
  | SimhClass.reserverd_marker ↦ false
  | _ ↦ true
]

-- `length` is at least 0 by the assertion.
unfoldable pub pad : ℕ → ℕ
pad length = length + (if length % 2 == 0 then 0 else 1)

-- The shifted bytes occupy different bits, so `|` is a sum; `data & 0x0fffffff` is a remainder.
unfoldable pub from_little_endian : List ℕ → SimhMetaData
from_little_endian v =
    let word : ℕ =
      get_or v 3 0 * 2 ^ 24 + get_or v 2 0 * 2 ^ 16 + get_or v 1 0 * 2 ^ 8 + get_or v 0 0 in
    record { cls = class_of (word / 2 ^ 28); value = word % 2 ^ 28 }

-- The last byte joins two nibbles.
unfoldable pub to_little_endian : SimhMetaData → List ℕ
to_little_endian m =
    m.value % 2 ^ 8
    ∷ m.value / 2 ^ 8 % 2 ^ 8
    ∷ m.value / 2 ^ 16 % 2 ^ 8
    ∷ (m.value / 2 ^ 24 % 16 + class_value m.cls * 16)
    ∷ []

-- The stream stands at `position`. `none` is the failure that is not an end of file; at the end of
-- the file the end of the medium is reported.
unfoldable pub read_meta_data : ImageFile → ℕ → Option SimhMetaData
read_meta_data f position =
    if can_read f position meta_data_size
    then some (from_little_endian (bytes f position meta_data_size))
    else if ltb f.size (position + meta_data_size)
    then some (record { cls = SimhClass.reserverd_marker; value = end_of_medium })
    else none

-- What WriteFilemark appends to a stream, at `position`.
unfoldable pub write_filemark : ImageFile → ℕ → ImageFile
write_filemark f position = write_list f position (0 ∷ 0 ∷ 0 ∷ 0 ∷ [])

abbrev pub length_bytes : ℕ → List ℕ
length_bytes length =
    length % 2 ^ 8 ∷ length / 2 ^ 8 % 2 ^ 8 ∷ length / 2 ^ 16 % 2 ^ 8 ∷ length / 2 ^ 24 % 2 ^ 8 ∷ []

-- One write() of the stream: nothing is written if the stream is bad already or goes bad.
abbrev pub put : ImageFile × Bool → ℕ → ℕ → List ℕ → ImageFile × Bool
put (f, good) position n bs =
    if good && not (f.write_error position n)
    then (write f position n (λ i. get_or bs i 0), true)
    else (f, false)

-- What WriteGoodData appends to a stream at `position`, and whether the stream is good. The data
-- hold at least `length` bytes.
unfoldable pub write_good_data : ImageFile → ℕ → List ℕ → ℕ → ImageFile × Bool
write_good_data f position values length =
    put (put (put (f, true) position 4 (length_bytes length)) (position + 4) length values)
      (position + 4 + length) 4 (length_bytes length)
