-- ===== src/Cache/Track/Saved.antt =====
-- DiskTrack::Save: what it writes to the image file.
use scsi2pi.Base.{
  ℕ, zero, suc, ◌+◌, ◌-◌, ◌*◌, ◌^◌, ◌≤◌, ◌<◌, ◌≡◌, ◌≢◌, refl, ap, ◌∙◌, Bool, Bool-cases, true,
  false, arith, mul_le, mul_sub_add, leb→le, le→leb, ltb→lt, not_ltb→le, ltb, block_inside, inl,
  inr, ◌⊎◌,
}
use scsi2pi.File.{ImageFile, Durable, write, at-write_in, at-write_out, size-write}
use scsi2pi.Cache.Track.{DiskTrack, run_end, run_refused, write_run, save_from, track_offset}

-- The sector `j` of the track is marked as modified.
abbrev pub MarkedFrom : DiskTrack → ℕ → ℕ → Type 0
MarkedFrom t i j = (i ≤ j) × (j < t.sector_count) × (t.modified_flags j ≡ true)

-- `after` is `before` with the modified sectors from `i` on written, all of them if `ok`.
pub record SavedFrom (t : DiskTrack) (i : ℕ) (before after : ImageFile) (ok : Bool) : Type 0 where
  pub keeps_size : before.size ≤ after.size
  pub keeps_errors :
      (before.read_error ≡ after.read_error) × (before.write_error ≡ after.write_error)
  pub others :
      (b k : ℕ)
      → k < 2 ^ t.shift_count
      → b * 2 ^ t.shift_count + k < before.size
      → ((j : ℕ) → MarkedFrom t i j → b ≢ t.track_number * 256 + j)
      → after.at (b * 2 ^ t.shift_count + k) ≡ before.at (b * 2 ^ t.shift_count + k)
  pub durable : Durable after
  pub modified :
      ok ≡ true
      → (j k : ℕ) → MarkedFrom t i j
      → k < 2 ^ t.shift_count
      → after.at ((t.track_number * 256 + j) * 2 ^ t.shift_count + k)
        ≡ t.buffer (j * 2 ^ t.shift_count + k)

-- A run is not empty and consists of modified sectors.
pub run_end-marked :
    (flags : ℕ → Bool) (i left : ℕ)
    → (i ≤ run_end flags i left)
      × (run_end flags i left ≤ i + left)
      × ((m : ℕ) → i ≤ m → m < run_end flags i left → flags m ≡ true)
unfolding run_end
run_end-marked flags i zero = (omega arith, omega arith, λ m a b. absurd (omega arith))
run_end-marked flags i (suc left) = elim (Bool-cases (flags i)) [
  | inr e ↦ rw (e, run_end) (omega arith, omega arith, λ m a b. absurd (omega arith))
  | inl e ↦
      let rest = run_end-marked flags (i + 1) left in
      rw (e, run_end)
        (
          omega (arith, rest.0),
          omega (arith, rest.1),
          λ m a b. elim (first m a) [ inl here ↦ ap flags here ∙ e | inr later ↦ rest.2 m later b ],
        )
]
  where
    first : (m : ℕ) → i ≤ m → (m ≡ i) ⊎ (i + 1 ≤ m)
    first m a = omega arith

run_end_longer :
    (flags : ℕ → Bool) (i left : ℕ) → flags i ≡ true → 0 < left → i < run_end flags i left
unfolding run_end
run_end_longer flags i zero mark some_left = absurd (omega arith)
run_end_longer flags i (suc left) mark some_left =
    rw (mark, run_end) (omega (arith, (run_end-marked flags (i + 1) left).0))

module _ (t : DiskTrack) where
  -- What a write of the sectors from `i` up to `j` leaves.
  write_run-others :
      (f : ImageFile) (i j b k : ℕ)
      → i ≤ j
      → k < 2 ^ t.shift_count
      → b * 2 ^ t.shift_count + k < f.size
      → (b < t.track_number * 256 + i) ⊎ (t.track_number * 256 + j ≤ b)
      → (write_run t f i j).at (b * 2 ^ t.shift_count + k) ≡ f.at (b * 2 ^ t.shift_count + k)
  write_run-others f i j b k a l inside (inl before) =
      at-write_out f _ _ _ _ (inl (omega (arith, block_inside (2 ^ t.shift_count) before l))) inside
  write_run-others f i j b k a l inside (inr behind) =
      at-write_out f _ _ _ _
        (inr (omega (arith, mul_le (2 ^ t.shift_count) behind, mul_sub_add (2 ^ t.shift_count) a)))
        inside

  write_run-at :
      (f : ImageFile) (i j m k : ℕ)
      → i ≤ m
      → m < j
      → k < 2 ^ t.shift_count
      → (write_run t f i j).at ((t.track_number * 256 + m) * 2 ^ t.shift_count + k)
        ≡ t.buffer (m * 2 ^ t.shift_count + k)
  write_run-at f i j m k a b l =
      let i_le : i ≤ j = omega arith in
      at-write_in f _ _ _ ((t.track_number * 256 + m) * 2 ^ t.shift_count + k)
        (omega (arith, mul_le (2 ^ t.shift_count) a))
        (omega (arith, block_inside (2 ^ t.shift_count) b l, mul_sub_add (2 ^ t.shift_count) i_le))
      ∙ ap t.buffer (omega (arith, mul_le (2 ^ t.shift_count) a))

  run_inside :
      (f : ImageFile) (i j m k : ℕ)
      → i ≤ j
      → m < j
      → k < 2 ^ t.shift_count
      → (t.track_number * 256 + m) * 2 ^ t.shift_count + k < (write_run t f i j).size
  run_inside f i j m k a b l = omega (
    arith,
    block_inside (2 ^ t.shift_count) b l,
    mul_sub_add (2 ^ t.shift_count) a,
    (size-write f (track_offset t + i * 2 ^ t.shift_count) ((j - i) * 2 ^ t.shift_count)
        (λ p. t.buffer (i * 2 ^ t.shift_count + p))).1,
  )

  nothing_left :
      (i : ℕ) (f : ImageFile) (ok : Bool)
      → Durable f
      → (ok ≡ true → t.sector_count ≤ i)
      → SavedFrom t i f f ok
  nothing_left i f ok durable behind = record {
    keeps_size = omega arith;
    keeps_errors = (refl, refl);
    durable = durable;
    others = λ b k l inside apart. refl;
    modified = λ done j k m l. absurd (omega (arith, behind done, m.0, m.1));
  }

  skip_clean :
      (i : ℕ) (f g : ImageFile) (ok : Bool)
      → t.modified_flags i ≡ false
      → SavedFrom t (i + 1) f g ok
      → SavedFrom t i f g ok
  skip_clean i f g ok clean rest = record {
    keeps_size = rest.keeps_size;
    keeps_errors = rest.keeps_errors;
    durable = rest.durable;
    others = λ b k l inside apart.
        rest.others b k l inside (λ j m. apart j (omega (arith, m.0), m.1, m.2));
    modified = λ done j k m l. rest.modified done j k (later j m, m.1, m.2) l;
  }
    where
      first : (j : ℕ) → i ≤ j → (j ≡ i) ⊎ (i + 1 ≤ j)
      first j a = omega arith

      later : (j : ℕ) → MarkedFrom t i j → i + 1 ≤ j
      later j m = elim (first j m.0) [
        | inl here ↦ absurd (ground (arith, ap t.modified_flags here, m.2, clean))
        | inr behind ↦ behind
      ]

  after_run :
      (i j : ℕ) (f g : ImageFile) (ok : Bool)
      → i ≤ j
      → j ≤ t.sector_count
      → ((m : ℕ) → i ≤ m → m < j → t.modified_flags m ≡ true)
      → SavedFrom t j (write_run t f i j) g ok
      → SavedFrom t i f g ok
  unfolding write
  after_run i j f g ok a le marks rest = record {
    keeps_size = omega (arith, rest.keeps_size, (size-write f _ _ _).0);
    keeps_errors = rest.keeps_errors;
    durable = rest.durable;
    others = λ b k l inside apart.
        rest.others b k l (omega (arith, inside, (size-write f _ _ _).0))
          (λ m h. apart m (omega (arith, h.0), h.1, h.2))
        ∙ write_run-others f i j b k a l inside (out b apart);
    modified = λ done m k h l. elim (either_side m h.0) [
      | inl here ↦
          rest.others (t.track_number * 256 + m) k l (run_inside f i j m k a here l)
            (λ n later e. absurd (omega (arith, e, later.0, here)))
          ∙ write_run-at f i j m k h.0 here l
      | inr behind ↦ rest.modified done m k (behind, h.1, h.2) l
    ];
  }
    where
      either_side : (m : ℕ) → i ≤ m → (m < j) ⊎ (j ≤ m)
      either_side m h = omega arith

      place :
          (b : ℕ)
          → (b < t.track_number * 256 + i)
            ⊎ (t.track_number * 256 + j ≤ b)
            ⊎ ((t.track_number * 256 + i ≤ b) × (b < t.track_number * 256 + j))
      place b = omega arith

      out :
          (b : ℕ)
          → ((m : ℕ) → MarkedFrom t i m → b ≢ t.track_number * 256 + m)
          → (b < t.track_number * 256 + i) ⊎ (t.track_number * 256 + j ≤ b)
      out b apart = elim (place b) [
        | inl low ↦ inl low
        | inr (inl high) ↦ inr high
        | inr (inr within) ↦
            let m = b - t.track_number * 256 in
            absurd (
              apart m
                (
                  omega (arith, within.0),
                  omega (arith, within.1),
                  marks m (omega (arith, within.0)) (omega (arith, within.1, within.0)),
                )
                (omega (arith, within.0)))
      ]

  pub save_from-SavedFrom :
      (fuel i : ℕ) (f : ImageFile)
      → Durable f
      → SavedFrom t i f (save_from t fuel i f).0 (save_from t fuel i f).1
  unfolding save_from write
  save_from-SavedFrom zero i f durable = nothing_left i f _ durable (leb→le t.sector_count i)
  save_from-SavedFrom (suc fuel) i f durable = elim (Bool-cases (ltb i t.sector_count)) [
    | inr behind ↦
        rw (behind, save_from)
          (nothing_left i f true durable (λ e. not_ltb→le i t.sector_count behind))
    | inl before ↦ elim (Bool-cases (t.modified_flags i)) [
      | inr clean ↦
          rw (before, clean, save_from)
            (skip_clean i f _ _ clean (save_from-SavedFrom fuel (i + 1) f durable))
      | inl mark ↦
          let j = run_end t.modified_flags i (t.sector_count - i) in
          let run = run_end-marked t.modified_flags i (t.sector_count - i) in
          let left = ltb→lt i t.sector_count before in
          elim (Bool-cases (run_refused t f i j)) [
            | inl refused ↦
                rw (before, mark, refused, save_from)
                  (nothing_left i f false durable (λ e. ground arith))
            | inr fine ↦
                rw
                  (
                    before,
                    mark,
                    fine,
                    durable (track_offset t + i * 2 ^ t.shift_count) ((j - i) * 2 ^ t.shift_count),
                    save_from,
                  )
                  (after_run i j f _ _ run.0 (omega (arith, run.1)) run.2
                    (save_from-SavedFrom fuel j (write_run t f i j) durable))
          ]
    ]
  ]

  -- The fuel is enough: the loop ends well where every write is possible.
  pub save_from_succeeds :
      (fuel i : ℕ) (f : ImageFile)
      → ((o n : ℕ) → f.write_error o n ≡ false)
      → Durable f
      → t.sector_count ≤ i + fuel
      → (save_from t fuel i f).1 ≡ true
  unfolding save_from write
  save_from_succeeds zero i f sound durable enough = le→leb t.sector_count i (omega arith)
  save_from_succeeds (suc fuel) i f sound durable enough =
      elim (Bool-cases (ltb i t.sector_count)) [
        | inr behind ↦ rw (behind, save_from) refl
        | inl before ↦ elim (Bool-cases (t.modified_flags i)) [
          | inr clean ↦
              rw (before, clean, save_from)
                (save_from_succeeds fuel (i + 1) f sound durable (omega arith))
          | inl mark ↦
              let j = run_end t.modified_flags i (t.sector_count - i) in
              let longer =
                run_end_longer t.modified_flags i (t.sector_count - i) mark
                  (omega (arith, ltb→lt i t.sector_count before)) in
              rw
                (
                  before,
                  mark,
                  sound (track_offset t + i * 2 ^ t.shift_count) ((j - i) * 2 ^ t.shift_count),
                  durable (track_offset t + i * 2 ^ t.shift_count) ((j - i) * 2 ^ t.shift_count),
                  save_from,
                )
                (save_from_succeeds fuel j (write_run t f i j) sound durable
                  (omega (arith, longer)))
        ]
      ]
