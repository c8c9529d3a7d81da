-- ===== src/Memory/RoundTrip.antt =====
-- What SetInt* writes, GetInt* reads back, and no other byte changes.
use scsi2pi.Base.{
  ℕ, zero, suc, ◌+◌, ◌*◌, ◌/◌, ◌%◌, ◌^◌, ◌≤◌, ◌<◌, ◌≡◌, refl, ◌≢◌, ◌⊎◌, some, List, [], ◌∷◌, length,
  get_or, set, length-set, arith, ◌∙◌, ap, lt→ltb, inl,
}
use scsi2pi.Memory.{
  byte_of, put16, put32, put64, int16_at, int32_at, int64_at, get_int16, get_int32, get_int64,
  set_int16, set_int32, set_int64,
}

get_or-set_self : (xs : List ℕ) (i v : ℕ) → i < length xs → get_or (set xs i v) i 0 ≡ v
get_or-set_self [] i v h = absurd (omega arith)
get_or-set_self (x ∷ xs) zero v h = refl
get_or-set_self (x ∷ xs) (suc i) v h = get_or-set_self xs i v (omega arith)

get_or-set_ne : (xs : List ℕ) (i j v : ℕ) → i ≢ j → get_or (set xs i v) j 0 ≡ get_or xs j 0
get_or-set_ne [] i j v h = refl
get_or-set_ne (x ∷ xs) zero zero v h = absurd (h refl)
get_or-set_ne (x ∷ xs) zero (suc j) v h = refl
get_or-set_ne (x ∷ xs) (suc i) zero v h = refl
get_or-set_ne (x ∷ xs) (suc i) (suc j) v h = get_or-set_ne xs i j v (omega arith)

-- A store of 16 bits: the size stays, the value is there, all else is as before.
pub length-put16 : (xs : List ℕ) (o v : ℕ) → length (put16 xs o v) ≡ length xs
length-put16 xs o v = omega (
  arith,
  length-set {0} (set xs o (byte_of v 8)) (o + 1) (byte_of v 0),
  length-set {0} xs o (byte_of v 8),
)

int16_at-put16 :
    (xs : List ℕ) (o v : ℕ) → o + 1 < length xs → int16_at (put16 xs o v) o ≡ v % 2 ^ 16
int16_at-put16 xs o v h =
    let hi = set xs o (byte_of v 8) in
    omega (
      arith,
      get_or-set_ne hi (o + 1) o (byte_of v 0) (omega arith),
      get_or-set_self xs o (byte_of v 8) (omega arith),
      length-set {0} xs o (byte_of v 8),
      get_or-set_self hi (o + 1) (byte_of v 0) (omega (arith, length-set {0} xs o (byte_of v 8))),
    )

pub get_or-put16_ne :
    (xs : List ℕ) (o v j : ℕ) → (j < o) ⊎ (o + 2 ≤ j) → get_or (put16 xs o v) j 0 ≡ get_or xs j 0
get_or-put16_ne xs o v j h = omega (
  arith,
  get_or-set_ne (set xs o (byte_of v 8)) (o + 1) j (byte_of v 0) (omega arith),
  get_or-set_ne xs o j (byte_of v 8) (omega arith),
)

-- The same for 32 and 64 bits, each from its two halves.
length-put32 : (xs : List ℕ) (o v : ℕ) → length (put32 xs o v) ≡ length xs
length-put32 xs o v =
    length-put16 (put16 xs o (v / 2 ^ 16)) (o + 2) v ∙ length-put16 xs o (v / 2 ^ 16)

get_or-put32_ne :
    (xs : List ℕ) (o v j : ℕ) → (j < o) ⊎ (o + 4 ≤ j) → get_or (put32 xs o v) j 0 ≡ get_or xs j 0
get_or-put32_ne xs o v j h =
    get_or-put16_ne (put16 xs o (v / 2 ^ 16)) (o + 2) v j (omega arith)
    ∙ get_or-put16_ne xs o (v / 2 ^ 16) j (omega arith)

int16_at-cong :
    (xs ys : List ℕ) (o : ℕ)
    → get_or xs o 0 ≡ get_or ys o 0
    → get_or xs (o + 1) 0 ≡ get_or ys (o + 1) 0
    → int16_at xs o ≡ int16_at ys o
int16_at-cong xs ys o p q = omega arith

int32_at_halves :
    (xs : List ℕ) (o : ℕ) → int32_at xs o ≡ int16_at xs o * 2 ^ 16 + int16_at xs (o + 2)
int32_at_halves xs o =
    let e : get_or xs (o + 2 + 1) 0 ≡ get_or xs (o + 3) 0 = ap (λ i. get_or xs i 0) (omega arith) in
    omega arith

int32_at-put32 :
    (xs : List ℕ) (o v : ℕ) → o + 3 < length xs → int32_at (put32 xs o v) o ≡ v % 2 ^ 32
int32_at-put32 xs o v h =
    let lo = put16 xs o (v / 2 ^ 16) in
    omega (
      arith,
      int32_at_halves (put32 xs o v) o,
      int16_at-put16 lo (o + 2) v (omega (arith, length-put16 xs o (v / 2 ^ 16))),
      int16_at-cong (put32 xs o v) lo o (get_or-put16_ne lo (o + 2) v o (omega arith))
          (get_or-put16_ne lo (o + 2) v (o + 1) (omega arith)),
      int16_at-put16 xs o (v / 2 ^ 16) (omega arith),
    )

length-put64 : (xs : List ℕ) (o v : ℕ) → length (put64 xs o v) ≡ length xs
length-put64 xs o v =
    length-put32 (put32 xs o (v / 2 ^ 32)) (o + 4) v ∙ length-put32 xs o (v / 2 ^ 32)

get_or-put64_ne :
    (xs : List ℕ) (o v j : ℕ) → (j < o) ⊎ (o + 8 ≤ j) → get_or (put64 xs o v) j 0 ≡ get_or xs j 0
get_or-put64_ne xs o v j h =
    get_or-put32_ne (put32 xs o (v / 2 ^ 32)) (o + 4) v j (omega arith)
    ∙ get_or-put32_ne xs o (v / 2 ^ 32) j (omega arith)

int64_at-put64 :
    (xs : List ℕ) (o v : ℕ) → o + 7 < length xs → int64_at (put64 xs o v) o ≡ v % 2 ^ 64
int64_at-put64 xs o v h =
    let hi = put32 xs o (v / 2 ^ 32) in
    let same = λ (j : ℕ) (p : j < o + 4). get_or-put32_ne hi (o + 4) v j (inl p) in
    omega (
      arith,
      same o (omega arith),
      same (o + 1) (omega arith),
      same (o + 2) (omega arith),
      same (o + 3) (omega arith),
      int32_at-put32 hi (o + 4) v (omega (arith, length-put32 xs o (v / 2 ^ 32))),
      int32_at-put32 xs o (v / 2 ^ 32) (omega arith),
    )

-- Inside the buffer SetInt16 succeeds; GetInt16 then gives the low 16 bits of the value, the size
-- stays and a byte outside the two is as before.
pub get_int16-set_int16 :
    (buf : List ℕ) (o v j : ℕ)
    → o + 1 < length buf
    → (j < o) ⊎ (o + 2 ≤ j)
    → (out : List ℕ) × (set_int16 buf o v ≡ some out)
      × (get_int16 out o ≡ some (v % 2 ^ 16))
      × (length out ≡ length buf)
      × (get_or out j 0 ≡ get_or buf j 0)
unfolding set_int16 get_int16
get_int16-set_int16 buf o v j h outside =
    let len = length-put16 buf o v in
    (
      put16 buf o v,
      rw (lt→ltb _ _ h),
      rw (lt→ltb (o + 1) (length (put16 buf o v)) (omega arith))
          (ap some (int16_at-put16 buf o v h)),
      len,
      get_or-put16_ne buf o v j outside,
    )

-- Inside the buffer SetInt32 succeeds; GetInt32 then gives the low 32 bits of the value, the size
-- stays and a byte outside the four is as before.
pub get_int32-set_int32 :
    (buf : List ℕ) (o v j : ℕ)
    → o + 3 < length buf
    → (j < o) ⊎ (o + 4 ≤ j)
    → (out : List ℕ) × (set_int32 buf o v ≡ some out)
      × (get_int32 out o ≡ some (v % 2 ^ 32))
      × (length out ≡ length buf)
      × (get_or out j 0 ≡ get_or buf j 0)
unfolding set_int32 get_int32
get_int32-set_int32 buf o v j h outside =
    let len = length-put32 buf o v in
    (
      put32 buf o v,
      rw (lt→ltb _ _ h),
      rw (lt→ltb (o + 3) (length (put32 buf o v)) (omega arith))
          (ap some (int32_at-put32 buf o v h)),
      len,
      get_or-put32_ne buf o v j outside,
    )

-- Inside the buffer SetInt64 succeeds; GetInt64 then gives the low 64 bits of the value, the size
-- stays and a byte outside the eight is as before.
pub get_int64-set_int64 :
    (buf : List ℕ) (o v j : ℕ)
    → o + 7 < length buf
    → (j < o) ⊎ (o + 8 ≤ j)
    → (out : List ℕ) × (set_int64 buf o v ≡ some out)
      × (get_int64 out o ≡ some (v % 2 ^ 64))
      × (length out ≡ length buf)
      × (get_or out j 0 ≡ get_or buf j 0)
unfolding set_int64 get_int64
get_int64-set_int64 buf o v j h outside =
    let len = length-put64 buf o v in
    (
      put64 buf o v,
      rw (lt→ltb _ _ h),
      rw (lt→ltb (o + 7) (length (put64 buf o v)) (omega arith))
          (ap some (int64_at-put64 buf o v h)),
      len,
      get_or-put64_ne buf o v j outside,
    )
