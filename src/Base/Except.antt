-- ===== src/Base/Except.antt =====
-- C++ methods that change an object and may throw: the object's state passes through, and what was
-- changed before a throw stays changed. `stuck` is no C++ value: it says that a loop's fuel ran out.
use native.Mathlib.Omega.{arith}
use mathlib.Core.Path.{◌≡◌, refl, sym, ◌∙◌}
use mathlib.Core.Logic.{◌⊎◌, inl, inr, ◌≢◌}

pub data Outcome (E S A : Type 0) : Type 0 where
  done : A → S → Outcome E S A
  thrown : E → S → Outcome E S A
  stuck : Outcome E S A

abbrev pub Method : Type 0 → Type 0 → Type 0 → Type 0
Method E S A = S → Outcome E S A

infixl 5 ◌>>=◌ ◌>>◌
abbrev pub ◌>>=◌ : {E S A B : Type 0} → Method E S A → (A → Method E S B) → Method E S B
◌>>=◌ m f s = elim (m s) [ done a t ↦ f a t | thrown e t ↦ thrown e t | stuck ↦ stuck ]

abbrev pub ◌>>◌ : {E S A B : Type 0} → Method E S A → Method E S B → Method E S B
◌>>◌ m k s = elim (m s) [ done a t ↦ k t | thrown e t ↦ thrown e t | stuck ↦ stuck ]

abbrev pub pure : {E S A : Type 0} → A → Method E S A
pure a s = done a s

abbrev pub throw : {E S A : Type 0} → E → Method E S A
throw e s = thrown e s

-- Read the object, and change it.
abbrev pub gets : {E S A : Type 0} → (S → A) → Method E S A
gets f s = done (f s) s

abbrev pub modify : {E S : Type 0} → (S → S) → Method E S (Unit {0})
modify f s = done tt (f s)

-- A step whose outcome is known.
module _ {E S A B : Type 0} (m : Method E S A) where
  pub >>=-done : (f : A → Method E S B) {a : A} {s t : S} → m s ≡ done a t → (m >>= f) s ≡ f a t
  >>=-done f e = rw (e, ◌>>=◌)

  pub >>=-thrown :
      (f : A → Method E S B) {x : E} {s t : S} → m s ≡ thrown x t → (m >>= f) s ≡ thrown x t
  >>=-thrown f e = rw (e, ◌>>=◌)

  pub >>-done : (k : Method E S B) {a : A} {s t : S} → m s ≡ done a t → (m >> k) s ≡ k t
  >>-done k e = rw (e, ◌>>◌)

  pub >>-thrown : (k : Method E S B) {x : E} {s t : S} → m s ≡ thrown x t → (m >> k) s ≡ thrown x t
  >>-thrown k e = rw (e, ◌>>◌)

pub Outcome-cases :
    {E S A : Type 0} (o : Outcome E S A)
    → ((a : A) × (s : S) × (o ≡ done a s)) ⊎ ((e : E) × (s : S) × (o ≡ thrown e s)) ⊎ (o ≡ stuck)
Outcome-cases (done a s) = inl (a, s, refl)
Outcome-cases (thrown e s) = inr (inl (e, s, refl))
Outcome-cases stuck = inr (inr refl)

thrown-ne-stuck : {E S A : Type 0} {x : E} {s : S} {o : Outcome E S A} → o ≡ thrown x s → o ≢ stuck
thrown-ne-stuck e d = ground arith

-- A sequence runs out of fuel only where one of its steps does.
pub >>=-ne-stuck :
    {E S A B : Type 0} (m : Method E S A) (f : A → Method E S B) (s : S)
    → m s ≢ stuck
    → ((a : A) (t : S) → f a t ≢ stuck)
    → (m >>= f) s ≢ stuck
>>=-ne-stuck m f s first second e = elim (Outcome-cases (m s)) [
  | inl (a, t, d) ↦ second a t (sym (>>=-done m f d) ∙ e)
  | inr (inl (x, t, d)) ↦ thrown-ne-stuck (>>=-thrown m f d) e
  | inr (inr d) ↦ first d
]

pub ne_along : {A : Type 0} {x y z : A} → x ≡ y → y ≢ z → x ≢ z
ne_along e differ same = differ (sym e ∙ same)
