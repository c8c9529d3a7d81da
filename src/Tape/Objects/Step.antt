-- ===== src/Tape/Objects/Step.antt =====
-- One round of ReadSimhMetaData, forwards and backwards: where it leaves the tape.
use scsi2pi.Base.{
  ℕ, ◌+◌, ◌≤◌, ◌≡◌, ◌≢◌, refl, sym, ◌∙◌, ◌⊎◌, inl, inr, Bool, false, arith, done, stuck, Option,
  some, none, Option-cases,
}
use scsi2pi.Base.Int.{pos, pos-+ℤ}
use scsi2pi.File.{ImageFile}
use scsi2pi.Simh.{SimhClass, SimhMetaData, read_meta_data, end_of_medium}
use scsi2pi.Tape.{Tape, placed, raise_end_of_partition}
use scsi2pi.Tape.Objects.{
  Found, read_failed, read_simh_round, body, read_next_meta_data, update_object_location, classify,
}

abbrev pub medium_end : SimhMetaData
medium_end = record { cls = SimhClass.reserverd_marker; value = end_of_medium }

-- Meta data lie in the file, or stand for its end.
read_meta_data_inside :
    (f : ImageFile) (p : ℕ) (m : SimhMetaData)
    → read_meta_data f p ≡ some m
    → (p + 4 ≤ f.size) ⊎ (m ≡ medium_end)
unfolding read_meta_data
read_meta_data_inside f p m e = ground arith

-- What a round forwards that raises nothing has done: it read four bytes of the file at p, and
-- the position is behind them.
pub record Forward (p : ℕ) (t u : Tape) : Type 0 where
  pub position : ℕ
  pub at : u.tape_position ≡ pos position
  pub further : p + 4 ≤ position
  pub inside : p + 4 ≤ t.file.size
  pub same : u.file ≡ t.file

classify_forward :
    (t u : Tape) (m : SimhMetaData) (r : Option Found) (p count : ℕ)
    → t.tape_position ≡ pos p
    → classify m count false t ≡ done r u
    → (m ≢ medium_end)
      × (u.file ≡ t.file)
      × ((u.tape_position ≡ pos p) ⊎ (u.tape_position ≡ pos (p + body m)))
unfolding classify raise_end_of_partition
classify_forward t u m r p count at e = ground (arith, pos-+ℤ p (body m))

-- The tape once the meta data are read and counted.
abbrev counted : SimhMetaData → ℕ → Tape → Tape
counted m p t = update_object_location m false (record t { tape_position = pos p })

read_next_some :
    (t : Tape) (p : ℕ) (m : SimhMetaData)
    → read_meta_data t.file p ≡ some m
    → read_next_meta_data false (placed p t)
      ≡ done (some m) (record t { tape_position = pos (p + 4) })
unfolding read_next_meta_data
read_next_some t p m e = rw (e, read_next_meta_data, pos-+ℤ p 4)

read_next_none :
    (t : Tape) (p : ℕ)
    → read_meta_data t.file p ≡ none
    → read_next_meta_data false (placed p t) ≡ read_failed (placed p t)
unfolding read_next_meta_data
read_next_none t p e = rw (e, read_next_meta_data)

-- A round forwards is decided by the meta data at the position.
pub read_simh_round-some :
    (t : Tape) (p count : ℕ) (m : SimhMetaData)
    → read_meta_data t.file p ≡ some m
    → read_simh_round count false (placed p t) ≡ classify m count false (counted m (p + 4) t)
unfolding read_simh_round
read_simh_round-some t p count m e = rw (read_next_some t p m e, read_simh_round)

pub read_simh_round-none :
    (t : Tape) (p count : ℕ)
    → read_meta_data t.file p ≡ none
    → read_simh_round count false (placed p t) ≡ read_failed (placed p t)
unfolding read_simh_round
read_simh_round-none t p count e = rw (read_next_none t p e, read_simh_round)

classify-ne-stuck :
    (m : SimhMetaData) (count : ℕ) (reverse : Bool) (t : Tape) → classify m count reverse t ≢ stuck
unfolding classify raise_end_of_partition
classify-ne-stuck m count reverse t e = ground arith

Forward-found :
    (t u : Tape) (r : Option Found) (p count : ℕ) (m : SimhMetaData)
    → read_meta_data t.file p ≡ some m
    → classify m count false (counted m (p + 4) t) ≡ done r u
    → Forward p t u
unfolding update_object_location
Forward-found t u r p count m here e =
    let (kept, same, at) = classify_forward (counted m (p + 4) t) u m r (p + 4) count refl e in
    let inside : p + 4 ≤ t.file.size =
      ground (arith, read_meta_data_inside t.file p m here, kept) in
    elim at [
      | inl stays ↦ record {
        position = p + 4;
        at = stays;
        further = omega arith;
        inside = inside;
        same = same;
      }
      | inr skips ↦ record {
        position = p + 4 + body m;
        at = skips;
        further = omega arith;
        inside = inside;
        same = same;
      }
    ]

-- A round forwards that raises nothing has moved on.
pub read_simh_round-Forward :
    (t u : Tape) (r : Option Found) (p count : ℕ)
    → read_simh_round count false (placed p t) ≡ done r u
    → Forward p t u
read_simh_round-Forward t u r p count e = elim (Option-cases (read_meta_data t.file p)) [
  | inl gone ↦ cc (read_simh_round-none t p count gone)
  | inr (m, here) ↦
      Forward-found t u r p count m here (sym (read_simh_round-some t p count m here) ∙ e)
]

pub placed_lem : (t : Tape) (p : ℕ) → t.tape_position ≡ pos p → t ≡ placed p t
placed_lem t p at = λ i. record t { tape_position = at i }

pub read_simh_round-ne-stuck :
    (t : Tape) (p count : ℕ) → read_simh_round count false (placed p t) ≢ stuck
read_simh_round-ne-stuck t p count e = elim (Option-cases (read_meta_data t.file p)) [
  | inl gone ↦ cc (read_simh_round-none t p count gone)
  | inr (m, here) ↦
      classify-ne-stuck m count false (counted m (p + 4) t)
        (sym (read_simh_round-some t p count m here) ∙ e)
]
