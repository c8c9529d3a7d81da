-- ===== src/Base/Words.antt =====
-- Arithmetic of the fixed-width integer types. A value is a number below 2 ^ w.
use Prim.Native.Nat.{ℕ, suc, ◌*◌, ◌+◌, ◌-◌, ◌%◌, ◌^◌}
use scsi2pi.Base.Tests.{leb, if◌then◌else◌}
use scsi2pi.Base.Int.{ℤ, pos, negsuc}

abbrev pub add32 : ℕ → ℕ → ℕ
add32 a b = (a + b) % 2 ^ 32

abbrev pub sub32 : ℕ → ℕ → ℕ
sub32 a b = (a + 2 ^ 32 - b % 2 ^ 32) % 2 ^ 32

abbrev pub add64 : ℕ → ℕ → ℕ
add64 a b = (a + b) % 2 ^ 64

abbrev pub sub64 : ℕ → ℕ → ℕ
sub64 a b = (a + 2 ^ 64 - b % 2 ^ 64) % 2 ^ 64

-- The signed number that a value of 2 * `half` is cast to.
abbrev as_signed : ℕ → ℕ → ℤ
as_signed half value = if leb half value then negsuc (2 * half - suc value) else pos value

-- static_cast<int32_t> of a uint32_t, and static_cast<int64_t> of a uint64_t.
abbrev pub to_int32 : ℕ → ℤ
to_int32 = as_signed (2 ^ 31)

abbrev pub to_int64 : ℕ → ℤ
to_int64 = as_signed (2 ^ 63)
