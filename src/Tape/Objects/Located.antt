-- ===== src/Tape/Objects/Located.antt =====
-- FindObject: the search for a logical object identifier ends.
use scsi2pi.Base.{
  ℕ, zero, suc, ne_along, ◌+◌, ◌*◌, ◌≤◌, ◌<◌, ◌≡◌, ◌≢◌, ◌∙◌, ap, inl, inr, true, false, arith, done,
  thrown, stuck, Bool-cases, ◌==◌,
}
use scsi2pi.Base.Int.{pos-+ℤ}
use scsi2pi.Base.Words.{sub32}
use scsi2pi.Scsi.{ScsiException}
use scsi2pi.Simh.{SimhMetaData, is_record}
use scsi2pi.Tape.{Tape, placed}
use scsi2pi.Tape.Objects.{
  Found, body, skip_body, read_simh_meta_data, find_object, is_counted, is_private_marker,
}
use scsi2pi.Tape.Objects.Step.{Forward, placed_lem}
use scsi2pi.Tape.Objects.Termination.{Enough, Enough-next, read_simh_meta_data-Advances}

skip_body-Forward :
    (p : ℕ) (m : SimhMetaData) (t u : Tape) → Forward p t u → Forward p t (skip_body false m u)
unfolding skip_body
skip_body-Forward p m t u f = elim (Bool-cases (is_record m)) [
  | inl e ↦ record {
    position = f.position + body m;
    at = rw (e, f.at) (pos-+ℤ f.position _);
    further = omega (arith, f.further);
    inside = f.inside;
    same = f.same;
  }
  | inr e ↦ record {
    position = f.position;
    at = rw (e, f.at);
    further = f.further;
    inside = f.inside;
    same = f.same;
  }
]

-- One round of FindObject, by what it found.
module _ (fuel p identifier : ℕ) (t : Tape) where
  find_object_thrown :
      (x : ScsiException) (u : Tape)
      → read_simh_meta_data (suc fuel) 0 false (placed p t) ≡ thrown x u
      → find_object (suc fuel) identifier (placed p t) ≢ stuck
  unfolding find_object
  find_object_thrown x u e stops = ground (arith, e)

  find_object_marker :
      (found : Found) (u : Tape)
      → read_simh_meta_data (suc fuel) 0 false (placed p t) ≡ done found u
      → is_private_marker found.meta_data ≡ true
      → find_object (suc fuel) identifier (placed p t) ≢ stuck
  unfolding find_object
  find_object_marker found u e marker stops = ground (arith, e, marker)

  find_object_uncounted :
      (found : Found) (u : Tape)
      → read_simh_meta_data (suc fuel) 0 false (placed p t) ≡ done found u
      → is_private_marker found.meta_data ≡ false
      → is_counted found.meta_data ≡ false
      → find_object (suc fuel) identifier (placed p t) ≡ find_object fuel identifier u
  unfolding find_object
  find_object_uncounted found u e marker skips = rw (e, marker, skips, find_object)

  find_object_last :
      (found : Found) (u : Tape)
      → read_simh_meta_data (suc fuel) 0 false (placed p t) ≡ done found u
      → is_private_marker found.meta_data ≡ false
      → is_counted found.meta_data ≡ true
      → (sub32 identifier 1 == 0) ≡ true
      → find_object (suc fuel) identifier (placed p t) ≢ stuck
  unfolding find_object
  find_object_last found u e marker counts last stops = ground (arith, e, marker, counts, last)

  find_object_counted :
      (found : Found) (u : Tape)
      → read_simh_meta_data (suc fuel) 0 false (placed p t) ≡ done found u
      → is_private_marker found.meta_data ≡ false
      → is_counted found.meta_data ≡ true
      → (sub32 identifier 1 == 0) ≡ false
      → find_object (suc fuel) identifier (placed p t)
        ≡ find_object fuel (sub32 identifier 1) (skip_body false found.meta_data u)
  unfolding find_object
  find_object_counted found u e marker counts more = rw (e, marker, counts, more, find_object)

find_object-ne-stuck :
    (fuel p identifier : ℕ) (t : Tape)
    → Enough fuel p t
    → find_object fuel identifier (placed p t) ≢ stuck
find_object-ne-stuck zero p identifier t (one, enough) = absurd (omega arith)
find_object-ne-stuck (suc fuel) p identifier t enough =
    elim (read_simh_meta_data-Advances (suc fuel) p 0 t enough) [
      | inr (x, u, e) ↦ find_object_thrown fuel p identifier t x u e
      | inl (found, u, e, f) ↦
          let m = found.meta_data in
          elim (Bool-cases (is_private_marker m)) [
            | inl marker ↦ find_object_marker fuel p identifier t found u e marker
            | inr marker ↦ elim (Bool-cases (is_counted m)) [
              | inr skips ↦
                  ne_along
                    (find_object_uncounted fuel p identifier t found u e marker skips
                      ∙ ap (find_object fuel identifier) (placed_lem u f.position f.at))
                    (find_object-ne-stuck fuel f.position identifier u
                      (Enough-next fuel p t u f enough))
              | inl counts ↦ elim (Bool-cases (sub32 identifier 1 == 0)) [
                | inl last ↦ find_object_last fuel p identifier t found u e marker counts last
                | inr more ↦
                    let v = skip_body false m u in
                    let g = skip_body-Forward p m t u f in
                    ne_along
                      (find_object_counted fuel p identifier t found u e marker counts more
                        ∙ ap (find_object fuel (sub32 identifier 1)) (placed_lem v g.position g.at))
                      (find_object-ne-stuck fuel g.position (sub32 identifier 1) v
                        (Enough-next fuel p t v g enough))
              ]
            ]
          ]
    ]

-- FindObject ends: with 1 ≤ fuel and the image ending before p + 4 * fuel, the search from
-- position p for any identifier returns or throws.
pub find_object_terminates :
    (fuel p identifier : ℕ) (t : Tape)
    → 1 ≤ fuel
    → t.file.size < p + 4 * fuel
    → find_object fuel identifier (placed p t) ≢ stuck
find_object_terminates fuel p identifier t one enough =
    find_object-ne-stuck fuel p identifier t (one, enough)
