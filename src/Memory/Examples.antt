-- ===== src/Memory/Examples.antt =====
-- Numbers stored in a small buffer.
use scsi2pi.Base.{ℕ, ◌%◌, ◌^◌, ◌≡◌, inl, inr, arith, some, List, length, get_or, replicate}
use scsi2pi.Memory.{set_int16, get_int16, set_int32, get_int32, set_int64, get_int64}
use scsi2pi.Memory.RoundTrip.{get_int16-set_int16, get_int32-set_int32, get_int64-set_int64}

abbrev buffer : List ℕ
buffer = replicate 12 7

get_int16-set_int16_example :
    (out : List ℕ) × (set_int16 buffer 2 0x1234 ≡ some out)
    × (get_int16 out 2 ≡ some (0x1234 % 2 ^ 16))
    × (length out ≡ length buffer)
    × (get_or out 1 0 ≡ get_or buffer 1 0)
get_int16-set_int16_example =
    get_int16-set_int16 buffer 2 0x1234 1 (omega arith) (inl (omega arith))

get_int32-set_int32_example :
    (out : List ℕ) × (set_int32 buffer 2 0x12345678 ≡ some out)
    × (get_int32 out 2 ≡ some (0x12345678 % 2 ^ 32))
    × (length out ≡ length buffer)
    × (get_or out 7 0 ≡ get_or buffer 7 0)
get_int32-set_int32_example =
    get_int32-set_int32 buffer 2 0x12345678 7 (omega arith) (inr (omega arith))

get_int64-set_int64_example :
    (out : List ℕ) × (set_int64 buffer 2 0x123456789abcdef0 ≡ some out)
    × (get_int64 out 2 ≡ some (0x123456789abcdef0 % 2 ^ 64))
    × (length out ≡ length buffer)
    × (get_or out 11 0 ≡ get_or buffer 11 0)
get_int64-set_int64_example =
    get_int64-set_int64 buffer 2 0x123456789abcdef0 11 (omega arith) (inr (omega arith))
