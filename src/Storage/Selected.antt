-- ===== src/Storage/Selected.antt =====
-- cpp/devices/storage_device.cpp: the end of MODE SELECT.
use scsi2pi.Base.{
  ℕ, suc, ◌+◌, ◌-◌, ◌*◌, ◌/◌, ◌%◌, ◌^◌, ◌≡◌, ◌⊎◌, refl, sym, ap, subst, ◌∙◌, Bool-cases, true, not,
  ◌&&◌, ◌||◌, ltb, leb, ◌==◌, ==_refl, if◌then◌else◌, get_or, Option, Outcome, done, thrown, stuck,
  ◌>>=◌, pure, arith, in_branches, inl, inr,
}
use scsi2pi.Scsi.{ScsiException}
use scsi2pi.Storage.{
  Storage, M, verify_block_size_change, disk_change_block_size, change_block_size,
}
use scsi2pi.Storage.Select.{
  evaluate_block_descriptors, parse_pages, select_pages, mode_select, sized, required_length,
  descriptor_length, word_at, length_error, list_error,
}
use scsi2pi.Storage.Ends.{Ends, Ends-bind, Ends-then, parse_pages-Ends, verify-Ends}

abbrev pub resized : ℕ → Storage → Storage
resized size s = record s { block_size = size }

at_once : (s : Storage) → Ends s (done tt s)
unfolding Ends
at_once s = refl

-- The block size has been changed before, so that nothing is left to do.
change-Ends :
    (size : ℕ) (s : Storage) → Ends (sized size s) (disk_change_block_size size (sized size s))
unfolding disk_change_block_size change_block_size Ends
change-Ends size s = elim (Bool-cases (size == 0)) [
  | inl zero_size ↦
      subst
        (λ b.
          Ends (if b then s else resized size s)
            (disk_change_block_size size (if b then s else resized size s)))
        (sym zero_size)
        (in_branches (Ends s) {yes_case = done tt s} refl
          (subst
            (λ b. Ends s (
              if b || (not (s.supported_block_sizes size) && not (size % 4 == 0))
              then thrown list_error s
              else (if size == s.block_size
                  then done tt s
                  else done tt (record s {
                    block_size = size;
                    blocks = s.block_size * s.blocks % 2 ^ 64 / size;
                  }))))
            (sym zero_size) refl)
          (size == s.block_size))
  | inr some_size ↦
      subst
        (λ b.
          Ends (if b then s else resized size s)
            (disk_change_block_size size (if b then s else resized size s)))
        (sym some_size)
        (subst
          (λ b.
            Ends (resized size s)
              (if b then done tt (resized size s) else change_block_size size (resized size s)))
          (sym (==_refl size)) refl)
]

select_pages-Ends :
    (pages : ℕ → Option ℕ) (buf : ℕ → ℕ) (length : ℕ) (p : ℕ × ℕ) (s : Storage)
    → Ends (sized p.1 s) (select_pages pages buf length p s)
unfolding select_pages
select_pages-Ends pages buf length p s =
    let u = sized p.1 s in
    in_branches (Ends u) {yes_case = done tt u} (at_once u)
      (Ends-then u (parse_pages pages buf (suc length) p.0 (length - p.0))
        (disk_change_block_size p.1) u
        (parse_pages-Ends pages buf (suc length) p.0 (length - p.0) u (omega arith))
        (λ t same.
          subst (λ v. Ends u (disk_change_block_size p.1 v)) (sym same) (change-Ends p.1 s)))
      (not (get_or u.cdb 1 0 / 16 % 2 == 1))

-- It ends, with the same number of blocks.
EndsWithin : Storage → Outcome ScsiException Storage (Unit {0}) → Type 0
EndsWithin s o = (size : ℕ) × Ends (sized size s) o

evaluate-Ends :
    (command : ℕ) (buf : ℕ → ℕ) (length size : ℕ) (s : Storage)
    → Ends s (evaluate_block_descriptors command buf length size s)
unfolding evaluate_block_descriptors Ends
evaluate-Ends command buf length size s =
    let required = required_length command in
    let descriptors = descriptor_length command buf in
    in_branches (Ends s) {yes_case = thrown length_error s} refl
      (in_branches (Ends s) {no_case = done (descriptors + required, size) s}
        (Ends-bind s (verify_block_size_change (word_at buf (required + 6)) true)
          (λ n. pure (descriptors + required, n)) s
          (verify-Ends (word_at buf (required + 6)) true s) (λ a t e. e))
        refl (not (descriptors == 0) && leb (required + 8) length))
      (ltb length required || ltb length (descriptors + required))

within-bind :
    {A : Type 0} (m : M A) (f : A → M (Unit {0})) (s : Storage)
    → Ends s (m s)
    → ((a : A) → EndsWithin s (f a s))
    → EndsWithin s ((m >>= f) s)
unfolding Ends EndsWithin
within-bind {A = A} m f s first rest = after (m s) first
  where
    after :
        (o : Outcome ScsiException Storage A)
        → Ends s o
        → EndsWithin s (elim o [ done a t ↦ f a t | thrown e t ↦ thrown e t | stuck ↦ stuck ])
    after (done a t) e = subst (λ v. EndsWithin s (f a v)) (sym e) (rest a)
    after (thrown x t) e = (0, e)
    after stuck e = absurd e

mode_select-EndsWithin :
    (pages : ℕ → Option ℕ) (buf : ℕ → ℕ) (length : ℕ) (s : Storage)
    → EndsWithin s (mode_select pages buf length s)
unfolding mode_select EndsWithin
mode_select-EndsWithin pages buf length s =
    in_branches (EndsWithin s) {yes_case = done tt s} (0, at_once s)
      (within-bind (evaluate_block_descriptors (get_or s.cdb 0 0) buf length s.block_size)
        (select_pages pages buf length) s
        (evaluate-Ends (get_or s.cdb 0 0) buf length s.block_size s)
        (λ p. (p.1, select_pages-Ends pages buf length p s)))
      (length == 0)

sized_blocks : (size : ℕ) (s : Storage) → (sized size s).blocks ≡ s.blocks
sized_blocks size s =
    in_branches (λ (t : Storage). t.blocks ≡ s.blocks) {yes_case = s} {no_case = resized size s}
      refl refl (size == 0)

-- Whatever the parameter list and the pages of the device are, MODE SELECT ends, with or without an
-- error, and the number of blocks of the disk is the same as before.
pub mode_select_ends :
    (pages : ℕ → Option ℕ) (buf : ℕ → ℕ) (length : ℕ) (s : Storage)
    → (t : Storage) × ((mode_select pages buf length s ≡ done tt t)
        ⊎ ((e : ScsiException) × (mode_select pages buf length s ≡ thrown e t)))
      × (t.blocks ≡ s.blocks)
unfolding Ends EndsWithin
mode_select_ends pages buf length s =
    let r = mode_select-EndsWithin pages buf length s in
    outcome r.0 (mode_select pages buf length s) refl r.1
  where
    Result : Type 0
    Result =
        (t : Storage) × ((mode_select pages buf length s ≡ done tt t)
          ⊎ ((e : ScsiException) × (mode_select pages buf length s ≡ thrown e t)))
        × (t.blocks ≡ s.blocks)

    outcome :
        (size : ℕ) (o : Outcome ScsiException Storage (Unit {0}))
        → mode_select pages buf length s ≡ o
        → Ends (sized size s) o
        → Result
    outcome size (done a t) is_o e =
        (t, inl is_o, ap (λ (u : Storage). u.blocks) e ∙ sized_blocks size s)
    outcome size (thrown x t) is_o e =
        (t, inr (x, is_o), ap (λ (u : Storage). u.blocks) e ∙ sized_blocks size s)
    outcome size stuck is_o e = absurd e
