-- ===== src/Storage/Ends.antt =====
-- cpp/devices/storage_device.cpp: the steps of MODE SELECT before the change of the block size.
use scsi2pi.Base.{
  ℕ, zero, suc, ◌+◌, ◌-◌, ◌<◌, ◌≤◌, ◌≡◌, ◌⊎◌, refl, sym, ap, subst, ◌∙◌, Bool, Bool-cases, true,
  false, not, ◌||◌, ltb, ◌==◌, if◌then◌else◌, Option, none, some, Outcome, done, thrown, stuck,
  ◌>>=◌, ◌>>◌, pure, arith, in_branches, inl, inr, not_ltb→le,
}
use scsi2pi.Scsi.{ScsiException}
use scsi2pi.Storage.{Storage, M, verify_block_size_change}
use scsi2pi.Storage.Select.{
  select_page, parse_page, parse_pages, size_of_page, word_at, length_error, list_error,
}

-- The method ends in the state `n`.
unfoldable pub Ends : {A : Type 0} → Storage → Outcome ScsiException Storage A → Type 0
Ends n (done a t) = t ≡ n
Ends n (thrown e t) = t ≡ n
Ends n stuck = ⊥

pub Ends-bind :
    {A B : Type 0} (n : Storage) (m : M A) (f : A → M B) (s : Storage)
    → Ends n (m s)
    → ((a : A) (t : Storage) → t ≡ n → Ends n (f a t))
    → Ends n ((m >>= f) s)
unfolding Ends
Ends-bind {A = A} n m f s first rest = after (m s) first
  where
    after :
        (o : Outcome ScsiException Storage A)
        → Ends n o
        → Ends n (elim o [ done a t ↦ f a t | thrown e t ↦ thrown e t | stuck ↦ stuck ])
    after (done a t) e = rest a t e
    after (thrown x t) e = e
    after stuck e = absurd e

pub Ends-then :
    {A B : Type 0} (n : Storage) (m : M A) (k : M B) (s : Storage)
    → Ends n (m s)
    → ((t : Storage) → t ≡ n → Ends n (k t))
    → Ends n ((m >> k) s)
unfolding Ends
Ends-then {A = A} n m k s first rest = after (m s) first
  where
    after :
        (o : Outcome ScsiException Storage A)
        → Ends n o
        → Ends n (elim o [ done a t ↦ k t | thrown e t ↦ thrown e t | stuck ↦ stuck ])
    after (done a t) e = rest t e
    after (thrown x t) e = e
    after stuck e = absurd e

pub verify-Ends : (r : ℕ) (b : Bool) (s : Storage) → Ends s (verify_block_size_change r b s)
unfolding verify_block_size_change Ends
verify-Ends r b s = search (in_branches (Ends s))

select_page-Ends :
    (code : ℕ) (buf : ℕ → ℕ) (offset : ℕ) (s : Storage) → Ends s (select_page code buf offset s)
unfolding select_page Ends
select_page-Ends code buf offset s =
    in_branches (Ends s) refl
      (in_branches (Ends s)
        (Ends-bind s (verify_block_size_change (word_at buf (offset + 12)) false) (λ n. pure tt) s
          (verify-Ends _ false s) (λ a t e. e))
        refl (code == 0x03))
      (code == 0x01 || code == 0x07 || code == 0x08)

or_true : (b : Bool) → (b || true) ≡ true
or_true true = refl
or_true false = refl

parse_page-Ends :
    (size : Option ℕ) (buf : ℕ → ℕ) (offset length : ℕ) (rest : M (Unit {0})) (s : Storage)
    → (size_of_page buf offset ≤ length → (t : Storage) → t ≡ s → Ends s (rest t))
    → Ends s (parse_page size buf offset length rest s)
unfolding parse_page Ends
parse_page-Ends none buf offset length rest s more = refl
parse_page-Ends (some size) buf offset length rest s more =
    in_branches (Ends s) {yes_case = done tt s} refl
      (in_branches (Ends s) {yes_case = thrown length_error s} refl
        (fitting (Bool-cases (ltb length (size_of_page buf offset)))) (ltb length 2))
      (buf offset == 0)
  where
    mismatch : Bool
    mismatch = not (size == size_of_page buf offset)

    chosen : Outcome ScsiException Storage (Unit {0})
    chosen = (select_page (buf offset) buf offset >> rest) s

    fitting :
        ((ltb length (size_of_page buf offset)) ≡ true)
          ⊎ ((ltb length (size_of_page buf offset)) ≡ false)
        → Ends s (
            if mismatch || ltb length (size_of_page buf offset)
            then thrown list_error s
            else chosen)
    fitting (inl short) =
        subst (λ b. Ends s (if b then thrown list_error s else chosen))
          (sym (ap (λ b. mismatch || b) short ∙ or_true mismatch)) refl
    fitting (inr enough) =
        in_branches (Ends s) {yes_case = thrown list_error s} refl
          (Ends-then s (select_page (buf offset) buf offset) rest s
            (select_page-Ends (buf offset) buf offset s)
            (more (not_ltb→le length (size_of_page buf offset) enough)))
          (mismatch || ltb length (size_of_page buf offset))

pub parse_pages-Ends :
    (pages : ℕ → Option ℕ) (buf : ℕ → ℕ) (fuel offset length : ℕ) (s : Storage)
    → length < fuel
    → Ends s (parse_pages pages buf fuel offset length s)
unfolding parse_pages Ends
parse_pages-Ends pages buf zero offset length s enough = absurd (omega arith)
parse_pages-Ends pages buf (suc fuel) offset length s enough =
    in_branches (Ends s) {yes_case = done tt s} refl
      (parse_page-Ends (pages (buf offset)) buf offset length
        (parse_pages pages buf fuel (offset + size_of_page buf offset)
          (length - size_of_page buf offset))
        s
        (λ fits t same.
          subst
            (λ n. Ends n (
              parse_pages pages buf fuel (offset + size_of_page buf offset)
                (length - size_of_page buf offset) t))
            same
            (parse_pages-Ends pages buf fuel (offset + size_of_page buf offset)
              (length - size_of_page buf offset) t (omega arith))))
      (length == 0)
