-- ===== src/Primary/Readiness.antt =====
-- CheckReady of cpp/base/primary_device.cpp, called again and again.
use scsi2pi.Base.{
  Outcome, ℕ, zero, suc, ◌≡◌, refl, ap, Bool, true, false, not, if◌then◌else◌, List, [], ◌∷◌,
  replicate, Option, none, some, done, thrown, stuck,
}
use scsi2pi.Scsi.{ScsiException, SenseKey, Asc}
use scsi2pi.Primary.{Primary, check_ready}

-- What n calls in a row report, none for a call that passes, and the device afterwards.
unfoldable pub checks : ℕ → Primary → List (Option ScsiException) × Primary
unfolding check_ready
checks zero p = ([], p)
checks (suc n) p = elim (check_ready p) [
  | done a q ↦ (none ∷ (checks n q).0, (checks n q).1)
  | thrown e q ↦ (some e ∷ (checks n q).0, (checks n q).1)
  | stuck ↦ ([], p)
]

abbrev pub flagged : Bool → Bool → Primary → Primary
flagged r a p = record p { device = record p.device { reset = r; attn = a } }

-- A call for each pending condition, and n more.
abbrev pub calls : Bool → Bool → ℕ → ℕ
calls true true n = suc (suc n)
calls true false n = suc n
calls false true n = suc n
calls false false n = n

-- A pending reset, then a pending attention, then `rest`.
abbrev pub reported : Bool → Bool → List (Option ScsiException) → List (Option ScsiException)
reported true true rest =
    some (record { sense_key = SenseKey.unit_attention; asc = Asc.power_on_or_reset })
    ∷ some (record { sense_key = SenseKey.unit_attention; asc = Asc.not_ready_to_ready_transition })
    ∷ rest
reported true false rest =
    some (record { sense_key = SenseKey.unit_attention; asc = Asc.power_on_or_reset }) ∷ rest
reported false true rest =
    some (record { sense_key = SenseKey.unit_attention; asc = Asc.not_ready_to_ready_transition })
    ∷ rest
reported false false rest = rest

abbrev pub answer : Bool → Option ScsiException
answer true = none
answer false = some (record { sense_key = SenseKey.not_ready; asc = Asc.medium_not_present })

abbrev settled : ℕ → Primary → List (Option ScsiException) × Primary
settled n p = (replicate n (answer p.device.ready), flagged false false p)

-- With nothing pending every call has the same result.
checks-settled : (n : ℕ) (p : Primary) → checks n (flagged false false p) ≡ settled n p
unfolding checks check_ready
checks-settled zero p = refl
checks-settled (suc n) p = by_ready (checks-settled n p) p.device.ready
  where
    first : Bool → Outcome ScsiException Primary (Unit {0})
    first b =
        if not b
        then thrown (record { sense_key = SenseKey.not_ready; asc = Asc.medium_not_present })
            (flagged false false p)
        else done tt (flagged false false p)

    by_ready :
        checks n (flagged false false p) ≡ settled n p
        → (b : Bool)
        → ◌≡◌ {A = List (Option ScsiException) × Primary}
            (elim (first b) [
              | done a q ↦ (none ∷ (checks n q).0, (checks n q).1)
              | thrown e q ↦ (some e ∷ (checks n q).0, (checks n q).1)
              | stuck ↦ ([], flagged false false p)
            ])
            (answer b ∷ replicate n (answer p.device.ready), flagged false false p)
    by_ready rest true = ap (λ r. (none ∷ r.0, r.1)) rest
    by_ready rest false =
        ap
          (λ r. (
            some (record { sense_key = SenseKey.not_ready; asc = Asc.medium_not_present }) ∷ r.0,
            r.1,
          ))
          rest

checks-flagged :
    (n : ℕ) (r a : Bool) (p : Primary)
    → checks (calls r a n) (flagged r a p)
      ≡ (reported r a (replicate n (answer p.device.ready)), flagged false false p)
unfolding checks check_ready
checks-flagged n false false p = checks-settled n p
checks-flagged n false true p =
    ap
      (λ r. (
        some (record {
          sense_key = SenseKey.unit_attention;
          asc = Asc.not_ready_to_ready_transition;
        })
            ∷ r.0,
        r.1,
      ))
      (checks-settled n p)
checks-flagged n true false p =
    ap
      (λ r. (
        some (record { sense_key = SenseKey.unit_attention; asc = Asc.power_on_or_reset }) ∷ r.0,
        r.1,
      ))
      (checks-settled n p)
checks-flagged n true true p =
    ap
      (λ r. (
        some (record { sense_key = SenseKey.unit_attention; asc = Asc.power_on_or_reset })
            ∷ some (record {
              sense_key = SenseKey.unit_attention;
              asc = Asc.not_ready_to_ready_transition;
            })
            ∷ r.0,
        r.1,
      ))
      (checks-settled n p)

-- However often CheckReady is called: a pending reset is reported first, as POWER ON OR RESET, then a
-- pending attention, as NOT READY TO READY TRANSITION, each by one call, and any number of further
-- calls pass if the device is ready, and else report MEDIUM NOT PRESENT. Nothing but the two pending
-- conditions changes.
pub check_ready_reports :
    (n : ℕ) (p : Primary)
    → checks (calls p.device.reset p.device.attn n) p ≡ (
      reported p.device.reset p.device.attn (replicate n (answer p.device.ready)),
      flagged false false p,
    )
check_ready_reports n p = checks-flagged n p.device.reset p.device.attn p
