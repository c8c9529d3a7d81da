-- ===== src/Tape/Objects/Termination.antt =====
-- The searches forwards need no more rounds than there are groups of four bytes ahead.
use scsi2pi.Base.{
  ℕ, zero, suc, ◌+◌, ◌*◌, ◌≤◌, ◌<◌, ◌≡◌, ◌∙◌, ap, ◌⊎◌, inl, inr, false, arith, done, thrown,
  Outcome-cases, some, none,
}
use scsi2pi.Scsi.{ScsiException}
use scsi2pi.Tape.{Tape, placed}
use scsi2pi.Tape.Objects.{Found, read_simh_round, read_simh_meta_data}
use scsi2pi.Tape.Objects.Step.{
  Forward, placed_lem, read_simh_round-Forward, read_simh_round-ne-stuck,
}

pub Forward-next :
    (t u v : Tape) (p : ℕ) (f : Forward p t u) → Forward f.position u v → Forward p t v
Forward-next t u v p f g = record {
  position = g.position;
  at = g.at;
  further = omega (arith, f.further, g.further);
  inside = f.inside;
  same = g.same ∙ f.same;
}

-- The fuel suffices from p on.
abbrev pub Enough : ℕ → ℕ → Tape → Type 0
Enough fuel p t = (1 ≤ fuel) × (t.file.size < p + 4 * fuel)

pub Enough-next :
    (fuel p : ℕ) (t u : Tape) (f : Forward p t u) → Enough (suc fuel) p t → Enough fuel f.position u
Enough-next fuel p t u f (one, enough) = (
  omega (arith, f.inside, f.further),
  rw (ap (λ file. file.size) f.same) (omega (arith, f.further)),
)

-- What one round leaves to do.
module _ (fuel p count : ℕ) (t : Tape) where
  read_simh_meta_data_next :
      (u : Tape)
      → read_simh_round count false (placed p t) ≡ done none u
      → read_simh_meta_data (suc fuel) count false (placed p t)
        ≡ read_simh_meta_data fuel count false u
  unfolding read_simh_meta_data
  read_simh_meta_data_next u e = rw (e, read_simh_meta_data)

  read_simh_meta_data_found :
      (found : Found) (u : Tape)
      → read_simh_round count false (placed p t) ≡ done (some found) u
      → read_simh_meta_data (suc fuel) count false (placed p t) ≡ done found u
  unfolding read_simh_meta_data
  read_simh_meta_data_found found u e = rw (e, read_simh_meta_data)

  read_simh_meta_data_thrown :
      (x : ScsiException) (u : Tape)
      → read_simh_round count false (placed p t) ≡ thrown x u
      → read_simh_meta_data (suc fuel) count false (placed p t) ≡ thrown x u
  unfolding read_simh_meta_data
  read_simh_meta_data_thrown x u e = rw (e, read_simh_meta_data)

-- With enough fuel ReadSimhMetaData does not run out of it, and what it finds is ahead.
abbrev pub Advances : ℕ → ℕ → ℕ → Tape → Type 0
Advances fuel p count t =
    ((found : Found) × (u : Tape) × (read_simh_meta_data fuel count false (placed p t)
        ≡ done found u)
      × Forward p t u)
    ⊎ ((x : ScsiException) × (u : Tape) × (read_simh_meta_data fuel count false (placed p t)
          ≡ thrown x u))

Advances-next :
    (fuel p count : ℕ) (t u : Tape) (f : Forward p t u)
    → read_simh_round count false (placed p t) ≡ done none u
    → Advances fuel f.position count u
    → Advances (suc fuel) p count t
Advances-next fuel p count t u f e rest =
    let step =
      read_simh_meta_data_next fuel p count t u e
      ∙ ap (read_simh_meta_data fuel count false) (placed_lem u f.position f.at) in
    elim rest [
      | inl (found, v, d, g) ↦ inl (found, v, step ∙ d, Forward-next t u v p f g)
      | inr (x, v, d) ↦ inr (x, v, step ∙ d)
    ]

pub read_simh_meta_data-Advances :
    (fuel p count : ℕ) (t : Tape) → Enough fuel p t → Advances fuel p count t
read_simh_meta_data-Advances zero p count t (one, enough) = absurd (omega arith)
read_simh_meta_data-Advances (suc fuel) p count t enough =
    elim (Outcome-cases (read_simh_round count false (placed p t))) [
      | inl (some found, u, e) ↦ inl (
        found,
        u,
        read_simh_meta_data_found fuel p count t found u e,
        read_simh_round-Forward t u (some found) p count e,
      )
      | inl (none, u, e) ↦
          let f = read_simh_round-Forward t u none p count e in
          Advances-next fuel p count t u f e
            (read_simh_meta_data-Advances fuel f.position count u (Enough-next fuel p t u f enough))
      | inr (inl (x, u, e)) ↦ inr (x, u, read_simh_meta_data_thrown fuel p count t x u e)
      | inr (inr e) ↦ absurd (read_simh_round-ne-stuck t p count e)
    ]
