-- ===== src/Tape/Objects/Forward.antt =====
-- FindNextObject and FindObject forwards: each of their rounds takes an object of the image.
use scsi2pi.Base.{
  ℕ, zero, suc, ne_along, >>=-ne-stuck, ◌+◌, ◌*◌, ◌≤◌, ◌<◌, ◌≡◌, ◌≢◌, ◌∙◌, ap, ◌⊎◌, inl, inr, Bool,
  false, arith, done, thrown, stuck, Outcome-cases,
}
use scsi2pi.Base.Int.{pos, pos-+ℤ}
use scsi2pi.Base.Words.{to_int32}
use scsi2pi.Scsi.{ScsiException}
use scsi2pi.Simh.{SimhMetaData}
use scsi2pi.Tape.{
  Tape, ObjectType, placed, raise_end_of_data, raise_filemark, filemark_information, get_byte_count,
}
use scsi2pi.Tape.Objects.{
  Found, Verdict, ends, goes_on, body, judge, skip_body, read_simh_meta_data, find_loop,
  find_next_object,
}
use scsi2pi.Tape.Objects.Step.{Forward, placed_lem}
use scsi2pi.Tape.Objects.Termination.{Enough, Enough-next, read_simh_meta_data-Advances}

get_byte_count-ne-stuck : (t : Tape) → get_byte_count t ≢ stuck
unfolding get_byte_count
get_byte_count-ne-stuck t e = ground arith

filemark_information-ne-stuck :
    (info : ℕ) (reverse read : Bool) (t : Tape) → filemark_information info reverse read t ≢ stuck
unfolding filemark_information
filemark_information-ne-stuck info reverse read t e = ground (
  arith,
  >>=-ne-stuck get_byte_count (λ n u. done (to_int32 n) u) t (get_byte_count-ne-stuck t)
      (λ n u d. ground arith),
)

raise_filemark-ne-stuck :
    (count : ℕ) (reverse read : Bool) (t : Tape)
    → raise_filemark {A = Verdict} count reverse read t ≢ stuck
unfolding raise_filemark
raise_filemark-ne-stuck count reverse read t =
    >>=-ne-stuck (filemark_information count reverse read) _ t
      (filemark_information-ne-stuck count reverse read t) (λ i u d. ground arith)

judge-ne-stuck :
    (wanted : ObjectType) (count : ℕ) (reverse read : Bool) (found : Found) (t : Tape)
    → judge wanted count reverse read found t ≢ stuck
unfolding judge raise_end_of_data
judge-ne-stuck wanted count reverse read found t e =
    ground (arith, raise_filemark-ne-stuck count reverse read (skip_body reverse found.meta_data t))

raise_filemark-ne-done :
    (count : ℕ) (reverse read : Bool) (t u : Tape) (a : Verdict)
    → raise_filemark count reverse read t ≢ done a u
unfolding raise_filemark
raise_filemark-ne-done count reverse read t u a e =
    elim (Outcome-cases (filemark_information count reverse read t)) [
      | inl (i, v, d) ↦ ground (arith, d)
      | inr (inl (x, v, d)) ↦ ground (arith, d)
      | inr (inr d) ↦ ground (arith, d)
    ]

-- The rest of the image after a judgement that goes on: the position stays or skips a body.
judge_goes_on :
    (wanted : ObjectType) (count c p : ℕ) (read : Bool) (found : Found) (t u : Tape)
    → t.tape_position ≡ pos p
    → judge wanted count false read found t ≡ done (goes_on c) u
    → (u.file ≡ t.file)
      × ((u.tape_position ≡ pos p) ⊎ (u.tape_position ≡ pos (p + body found.meta_data)))
unfolding judge raise_end_of_data skip_body
judge_goes_on wanted count c p read found t u at e = ground (
  arith,
  pos-+ℤ p (body found.meta_data),
  raise_filemark-ne-done count false read (skip_body false found.meta_data t) u (goes_on c),
)

-- The same, from where the object was found.
judge-Forward :
    (wanted : ObjectType) (count c p : ℕ) (read : Bool) (found : Found) (t u v : Tape)
    → Forward p t u
    → judge wanted count false read found u ≡ done (goes_on c) v
    → Forward p t v
judge-Forward wanted count c p read found t u v f e =
    let (same, at) = judge_goes_on wanted count c f.position read found u v f.at e in
    elim at [
      | inl stays ↦ record {
        position = f.position;
        at = stays;
        further = f.further;
        inside = f.inside;
        same = same ∙ f.same;
      }
      | inr skips ↦ record {
        position = f.position + body found.meta_data;
        at = skips;
        further = omega (arith, f.further);
        inside = f.inside;
        same = same ∙ f.same;
      }
    ]

-- One round of FindNextObject, by the outcome of its parts.
module _ (fuel p count : ℕ) (wanted : ObjectType) (read : Bool) (t : Tape) where
  find_loop_next :
      (found : Found) (u v : Tape) (c : ℕ)
      → read_simh_meta_data (suc fuel) count false (placed p t) ≡ done found u
      → judge wanted count false read found u ≡ done (goes_on c) v
      → find_loop (suc fuel) wanted count false read (placed p t)
        ≡ find_loop fuel wanted c false read v
  unfolding find_loop
  find_loop_next found u v c e d = rw (e, d, find_loop)

  find_loop_ends :
      (found : Found) (u v : Tape) (m : SimhMetaData)
      → read_simh_meta_data (suc fuel) count false (placed p t) ≡ done found u
      → judge wanted count false read found u ≡ done (ends m) v
      → find_loop (suc fuel) wanted count false read (placed p t) ≢ stuck
  unfolding find_loop
  find_loop_ends found u v m e d stops = ground (arith, e, d)

  find_loop_raises :
      (found : Found) (u v : Tape) (x : ScsiException)
      → read_simh_meta_data (suc fuel) count false (placed p t) ≡ done found u
      → judge wanted count false read found u ≡ thrown x v
      → find_loop (suc fuel) wanted count false read (placed p t) ≢ stuck
  unfolding find_loop
  find_loop_raises found u v x e d stops = ground (arith, e, d)

  find_loop_thrown :
      (x : ScsiException) (u : Tape)
      → read_simh_meta_data (suc fuel) count false (placed p t) ≡ thrown x u
      → find_loop (suc fuel) wanted count false read (placed p t) ≢ stuck
  unfolding find_loop
  find_loop_thrown x u e stops = ground (arith, e)

find_loop-ne-stuck :
    (fuel p count : ℕ) (wanted : ObjectType) (read : Bool) (t : Tape)
    → Enough fuel p t
    → find_loop fuel wanted count false read (placed p t) ≢ stuck
find_loop-ne-stuck zero p count wanted read t (one, enough) = absurd (omega arith)
find_loop-ne-stuck (suc fuel) p count wanted read t enough =
    elim (read_simh_meta_data-Advances (suc fuel) p count t enough) [
      | inr (x, u, e) ↦ find_loop_thrown fuel p count wanted read t x u e
      | inl (found, u, e, f) ↦ elim (Outcome-cases (judge wanted count false read found u)) [
        | inl (ends m, v, d) ↦ find_loop_ends fuel p count wanted read t found u v m e d
        | inl (goes_on c, v, d) ↦
            let g = judge-Forward wanted count c p read found t u v f d in
            ne_along
              (find_loop_next fuel p count wanted read t found u v c e d
                ∙ ap (find_loop fuel wanted c false read) (placed_lem v g.position g.at))
              (find_loop-ne-stuck fuel g.position c wanted read v (Enough-next fuel p t v g enough))
        | inr (inl (x, v, d)) ↦ find_loop_raises fuel p count wanted read t found u v x e d
        | inr (inr d) ↦ absurd (judge-ne-stuck wanted count false read found u d)
      ]
    ]

-- Forwards FindNextObject never searches on past the image: with 1 ≤ fuel and the image ending
-- before p + 4 * fuel, a search from position p for any object and count, reading or spacing,
-- returns or throws.
pub find_next_object_terminates :
    (fuel p count : ℕ) (wanted : ObjectType) (read : Bool) (t : Tape)
    → 1 ≤ fuel
    → t.file.size < p + 4 * fuel
    → find_next_object fuel wanted (pos count) read (placed p t) ≢ stuck
unfolding find_next_object
find_next_object_terminates fuel p count wanted read t one enough =
    find_loop-ne-stuck fuel p count wanted read t (one, enough)
