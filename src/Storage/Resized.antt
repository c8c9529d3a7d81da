-- ===== src/Storage/Resized.antt =====
-- cpp/devices/storage_device.cpp: MODE SELECT(6) with another block size.
use scsi2pi.Base.{
  ◌*◌, ◌^◌, subst, sym, ℕ, suc, ◌+◌, ◌-◌, ◌/◌, ◌%◌, ◌<◌, ◌≡◌, refl, ap, ◌∙◌, true, false, not, ◌&&◌,
  ltb, ◌==◌, not_==, if◌then◌else◌, get_or, Option, Outcome, done, thrown, stuck, ◌>>=◌, ◌>>◌, pure,
  arith, in_branches,
}
use scsi2pi.Scsi.{ScsiException}
use scsi2pi.Storage.{Storage, verify_block_size_change, disk_change_block_size}
use scsi2pi.Storage.Select.{
  evaluate_block_descriptors, parse_pages, select_pages, mode_select, word_at, length_error,
  list_error,
}
use scsi2pi.Storage.Selected.{resized}

verify_accepts :
    (r : ℕ) (s : Storage) → 0 < r → r % 4 ≡ 0 → verify_block_size_change r true s ≡ done r s
unfolding verify_block_size_change
verify_accepts r s some_size aligned =
    in_branches (λ o. o ≡ done r s) refl
      (ap (λ b. if not b && r % 4 == 0 && true then done r s else thrown list_error s) not_zero
        ∙ ap (λ n. if n == 0 && true then done r s else thrown list_error s) aligned)
      (r == s.block_size)
  where
    not_zero : (r == 0) ≡ false
    not_zero = not_== r 0 (omega arith)

evaluates :
    (buf : ℕ → ℕ) (size : ℕ) (s : Storage)
    → buf 3 ≡ 8
    → 0 < word_at buf 10
    → word_at buf 10 % 4 ≡ 0
    → evaluate_block_descriptors 0x15 buf 12 size s ≡ done (12, word_at buf 10) s
unfolding evaluate_block_descriptors
evaluates buf size s descriptor some_size aligned =
    ap
      (λ d.
        if ltb 12 (d + 4)
        then thrown length_error s
        else if not (d == 0) && true
        then (verify_block_size_change (word_at buf 10) true >>= λ n. pure (d + 4, n)) s
        else done (d + 4, size) s)
      descriptor
    ∙ ap
        (λ (o : Outcome ScsiException Storage ℕ). elim o [
          | done n t ↦ done (12, n) t
          | thrown e t ↦ thrown e t
          | stuck ↦ stuck
        ])
        (verify_accepts (word_at buf 10) s some_size aligned)

selects :
    (pages : ℕ → Option ℕ) (buf : ℕ → ℕ) (length offset size : ℕ) (s : Storage)
    → get_or s.cdb 1 0 / 16 % 2 ≡ 0
    → 0 < size
    → select_pages pages buf length (offset, size) s ≡ done tt (resized size s)
unfolding select_pages
selects pages buf length offset size s no_pages some_size =
    ap (λ b. outcome (if b then s else resized size s)) (not_== size 0 (omega arith))
    ∙ ap (λ c. if not (c == 1) then done tt (resized size s) else outcome_of_pages) no_pages
  where
    outcome : Storage → Outcome ScsiException Storage (Unit {0})
    outcome t =
        if not (get_or t.cdb 1 0 / 16 % 2 == 1)
        then done tt t
        else (parse_pages pages buf (suc length) offset (length - offset)
              >> disk_change_block_size size)
            t

    outcome_of_pages : Outcome ScsiException Storage (Unit {0})
    outcome_of_pages =
        (parse_pages pages buf (suc length) offset (length - offset) >> disk_change_block_size size)
          (resized size s)

-- The 24-bit block length in the descriptor.
abbrev pub asked_size : (ℕ → ℕ) → ℕ
asked_size buf = buf 9 * 2 ^ 16 + word_at buf 10

-- A MODE SELECT(6) without the PF bit, with a list of 12 bytes whose block descriptor asks for a
-- block size that is a positive multiple of 4 and fits in the last two of its three bytes, succeeds
-- and sets this block size, but leaves the number of blocks.
pub mode_select_resizes :
    (pages : ℕ → Option ℕ) (buf : ℕ → ℕ) (s : Storage)
    → get_or s.cdb 0 0 ≡ 0x15
    → get_or s.cdb 1 0 / 16 % 2 ≡ 0
    → buf 3 ≡ 8
    → buf 9 ≡ 0
    → 0 < asked_size buf
    → asked_size buf % 4 ≡ 0
    → mode_select pages buf 12 s ≡ done tt (record s { block_size = asked_size buf })
unfolding mode_select
mode_select_resizes pages buf s command no_pages descriptor short some_size aligned =
    ap (λ c. (evaluate_block_descriptors c buf 12 s.block_size >>= select_pages pages buf 12) s)
      command
    ∙ ap
        (λ o. elim o [
          | done a t ↦ select_pages pages buf 12 a t
          | thrown e t ↦ thrown e t
          | stuck ↦ stuck
        ])
        (evaluates buf s.block_size s descriptor (subst (λ n. 0 < n) same some_size)
          (subst (λ n. n % 4 ≡ 0) same aligned))
    ∙ selects pages buf 12 12 (word_at buf 10) s no_pages (subst (λ n. 0 < n) same some_size)
    ∙ ap (λ n. done tt (resized n s)) (sym same)
  where
    same : asked_size buf ≡ word_at buf 10
    same = omega (arith, short)
