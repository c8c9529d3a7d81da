-- ===== src/Base/Blocks.antt =====
-- Addresses in a sequence of blocks of one size: the byte `k` of the block `b`.
use Prim.Native.Nat.{ℕ, ◌*◌, ◌+◌, ◌-◌, ◌≤◌, ◌<◌}
use native.Mathlib.Nat.{mul-le-mul_right, add-mul, sub-add_cancel}
use mathlib.Core.Path.{◌≡◌, sym, ap, ◌∙◌}
use native.Mathlib.Omega.{arith}

pub mul_le : (s : ℕ) {a b : ℕ} → a ≤ b → a * s ≤ b * s
mul_le s h = mul-le-mul_right s h

pub block_inside : (s : ℕ) {j k n : ℕ} → j < n → k < s → j * s + k < n * s
block_inside s h l = omega (arith, mul-le-mul_right s h)

pub mul_sub_add : (s : ℕ) {i j : ℕ} → i ≤ j → (j - i) * s + i * s ≡ j * s
mul_sub_add s {i = i} {j = j} h = sym (add-mul (j - i) i s) ∙ ap (λ x. x * s) (sub-add_cancel h)
