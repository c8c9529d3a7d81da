-- ===== src/Simh/Codec.antt =====
-- The meta data codec of cpp/shared/simh_util.cpp in both directions.
use scsi2pi.Base.{
  ℕ, true, ◌+◌, ◌*◌, ◌/◌, ◌%◌, ◌^◌, ◌<◌, ◌≡◌, refl, [], ◌∷◌, arith, ◌==◌, ==_iff, holds_below,
  holds_below-at, ap, ◌∙◌,
}
use scsi2pi.Simh.{
  SimhClass, SimhMetaData, class_of, class_value, from_little_endian, to_little_endian,
}

class_of-class_value : (c : SimhClass) → class_of (class_value c) ≡ c
unfolding class_of class_value
class_of-class_value SimhClass.tape_mark_good_data_record = refl
class_of-class_value _ = refl

class_table : holds_below (λ n. class_value (class_of n) == n) 16 ≡ true
unfolding holds_below class_of class_value
class_table = refl

class_value-class_of : (n : ℕ) → n < 16 → class_value (class_of n) ≡ n
class_value-class_of n h =
    (==_iff _ n).0 (holds_below-at (λ k. class_value (class_of k) == k) 16 n h class_table)

class_value-lt : (c : SimhClass) → class_value c < 16
unfolding class_value
class_value-lt SimhClass.tape_mark_good_data_record = omega arith
class_value-lt _ = omega arith

-- ToLittleEndian followed by FromLittleEndian gives back any meta data whose value fits 28 bits.
pub from_little_endian-to_little_endian :
    (m : SimhMetaData) → m.value < 2 ^ 28 → from_little_endian (to_little_endian m) ≡ m
unfolding from_little_endian to_little_endian
from_little_endian-to_little_endian m h =
    let v = m.value in
    let k = class_value m.cls in
    let word : ℕ =
      (v / 2 ^ 24 % 16 + k * 16) * 2 ^ 24
      + v / 2 ^ 16 % 2 ^ 8 * 2 ^ 16
      + v / 2 ^ 8 % 2 ^ 8 * 2 ^ 8
      + v % 2 ^ 8 in
    let top : word / 2 ^ 28 ≡ k = omega arith in
    let low : word % 2 ^ 28 ≡ v = omega arith in
    λ i. record { cls = (ap class_of top ∙ class_of-class_value m.cls) i; value = low i }

-- FromLittleEndian followed by ToLittleEndian gives back any four bytes.
pub to_little_endian-from_little_endian :
    (a b c d : ℕ)
    → a < 2 ^ 8
    → b < 2 ^ 8
    → c < 2 ^ 8
    → d < 2 ^ 8
    → to_little_endian (from_little_endian (a ∷ b ∷ c ∷ d ∷ [])) ≡ a ∷ b ∷ c ∷ d ∷ []
unfolding from_little_endian to_little_endian
to_little_endian-from_little_endian a b c d ha hb hc hd =
    let word : ℕ = d * 2 ^ 24 + c * 2 ^ 16 + b * 2 ^ 8 + a in
    let v : ℕ = word % 2 ^ 28 in
    let e0 : v % 2 ^ 8 ≡ a = omega arith in
    let e1 : v / 2 ^ 8 % 2 ^ 8 ≡ b = omega arith in
    let e2 : v / 2 ^ 16 % 2 ^ 8 ≡ c = omega arith in
    let e3 : v / 2 ^ 24 % 16 + class_value (class_of (word / 2 ^ 28)) * 16 ≡ d =
      omega (arith, class_value-class_of (word / 2 ^ 28) (omega arith)) in
    λ i. e0 i ∷ e1 i ∷ e2 i ∷ e3 i ∷ []
