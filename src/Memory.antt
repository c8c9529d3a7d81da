-- ===== src/Memory.antt =====
-- cpp/shared/memory_util.h and cpp/shared/memory_util.cpp: big-endian integers in a byte buffer.
-- A buffer is a list of bytes. `none` stands for a failed assertion on the buffer's size.
pub mod RoundTrip
pub mod Examples
use scsi2pi.Base.{
  ℕ, ◌+◌, ◌*◌, ◌/◌, ◌%◌, ◌^◌, Option, none, some, List, ltb, if◌then◌else◌, length, get_or, set,
}

-- The value that is read at an offset; the checked functions read only inside the buffer.
abbrev pub int16_at : List ℕ → ℕ → ℕ
int16_at buf offset = get_or buf offset 0 * 2 ^ 8 + get_or buf (offset + 1) 0

abbrev pub int24_at : List ℕ → ℕ → ℕ
int24_at buf offset =
    get_or buf offset 0 * 2 ^ 16 + get_or buf (offset + 1) 0 * 2 ^ 8 + get_or buf (offset + 2) 0

abbrev pub int32_at : List ℕ → ℕ → ℕ
int32_at buf offset =
    get_or buf offset 0 * 2 ^ 24
    + get_or buf (offset + 1) 0 * 2 ^ 16
    + get_or buf (offset + 2) 0 * 2 ^ 8
    + get_or buf (offset + 3) 0

abbrev pub int64_at : List ℕ → ℕ → ℕ
int64_at buf offset = int32_at buf offset * 2 ^ 32 + int32_at buf (offset + 4)

unfoldable pub get_int16 : List ℕ → ℕ → Option ℕ
get_int16 buf offset = if ltb (offset + 1) (length buf) then some (int16_at buf offset) else none

unfoldable pub get_int24 : List ℕ → ℕ → Option ℕ
get_int24 buf offset = if ltb (offset + 2) (length buf) then some (int24_at buf offset) else none

unfoldable pub get_int32 : List ℕ → ℕ → Option ℕ
get_int32 buf offset = if ltb (offset + 3) (length buf) then some (int32_at buf offset) else none

unfoldable pub get_int64 : List ℕ → ℕ → Option ℕ
get_int64 buf offset = if ltb (offset + 7) (length buf) then some (int64_at buf offset) else none

-- The low byte of `value >> shift`.
abbrev pub byte_of : ℕ → ℕ → ℕ
byte_of value shift = value / 2 ^ shift % 2 ^ 8

abbrev pub put16 : List ℕ → ℕ → ℕ → List ℕ
put16 buf offset value = set (set buf offset (byte_of value 8)) (offset + 1) (byte_of value 0)

abbrev pub put32 : List ℕ → ℕ → ℕ → List ℕ
put32 buf offset value = put16 (put16 buf offset (value / 2 ^ 16)) (offset + 2) value

abbrev pub put64 : List ℕ → ℕ → ℕ → List ℕ
put64 buf offset value = put32 (put32 buf offset (value / 2 ^ 32)) (offset + 4) value

unfoldable pub set_int16 : List ℕ → ℕ → ℕ → Option (List ℕ)
set_int16 buf offset value =
    if ltb (offset + 1) (length buf) then some (put16 buf offset value) else none

unfoldable pub set_int32 : List ℕ → ℕ → ℕ → Option (List ℕ)
set_int32 buf offset value =
    if ltb (offset + 3) (length buf) then some (put32 buf offset value) else none

unfoldable pub set_int64 : List ℕ → ℕ → ℕ → Option (List ℕ)
set_int64 buf offset value =
    if ltb (offset + 7) (length buf) then some (put64 buf offset value) else none
