-- ===== src/Disk/Ranges.antt =====
-- Which sectors a command accepts.
use scsi2pi.Base.{
  ℕ, ◌+◌, ◌^◌, ◌<◌, ◌≤◌, ◌≡◌, ◌⊎◌, inl, inr, refl, Bool-cases, ltb→lt, not_ltb→le, ==_iff, ap, ◌∙◌,
  Bool, true, false, not, ◌||◌, ltb, ◌==◌, arith, not_ltb, lt→ltb, not_==, List, get_or, done,
  thrown, pure, >>=-done, >>=-thrown, if◌then◌else◌,
}
use scsi2pi.Base.Words.{add64}
use scsi2pi.Disk.{
  Disk, CacheOps, AccessMode, lba_out_of_range, check_ready, start_of, count_of, is_seek,
  check_and_get_start_and_count, Next,
}
use scsi2pi.Disk.Access.{seek}
use native.Mathlib.Nat.{mod-eq_of_lt}

-- The range that an accepted command works on.
abbrev pub Range : Type 0
Range = Bool × ℕ × ℕ

abbrev pub range_of : AccessMode → List ℕ → Range
range_of mode cdb =
    (not (count_of mode cdb == 0) || is_seek mode, start_of mode cdb, count_of mode cdb)

-- There is something to do.
pub range_valid :
    (mode : AccessMode) (cdb : List ℕ)
    → 0 < count_of mode cdb
    → range_of mode cdb ≡ (true, start_of mode cdb, count_of mode cdb)
range_valid mode cdb some_sectors =
    ap (λ z. (not z || is_seek mode, start_of mode cdb, count_of mode cdb))
      (not_== (count_of mode cdb) 0 (λ e. omega arith))

abbrev outside : {S : Type 0} → AccessMode → Disk S → Bool
outside mode d =
    d.block_count == 0 || ltb d.block_count (add64 (start_of mode d.cdb) (count_of mode d.cdb))

or_true : (b : Bool) → (b || true) ≡ true
or_true true = refl
or_true false = refl

module _ {S : Type 0} (mode : AccessMode) (d : Disk S) (ready : check_ready d ≡ done tt d) where
  checked :
      (e : Bool)
      → outside mode d ≡ e
      → check_and_get_start_and_count mode d
        ≡ (if e then thrown lba_out_of_range d else done (range_of mode d.cdb) d)
  unfolding check_and_get_start_and_count
  checked e test =
      >>=-done check_ready _ {s = d} ready
      ∙ ap (λ b. if b then thrown lba_out_of_range d else done (range_of mode d.cdb) d) test

  -- Accepted without regard to wrap-around.
  pub accepted :
      0 < d.block_count
      → add64 (start_of mode d.cdb) (count_of mode d.cdb) ≤ d.block_count
      → check_and_get_start_and_count mode d ≡ done (range_of mode d.cdb) d
  accepted some_blocks inside =
      checked false
        (rw (not_== d.block_count 0 (λ e. omega arith), not_ltb d.block_count _ inside) refl)

  rejected :
      d.block_count < add64 (start_of mode d.cdb) (count_of mode d.cdb)
      → check_and_get_start_and_count mode d ≡ thrown lba_out_of_range d
  rejected behind = checked true (rw (lt→ltb d.block_count _ behind) (or_true (d.block_count == 0)))

-- On a ready disk, and if start and count add up to less than 2 ^ 64, either the disk has sectors,
-- the range ends within them and is accepted, or the disk has none or the range ends behind them
-- and the command ends with LBA OUT OF RANGE.
pub range_checked :
    {S : Type 0} (mode : AccessMode) (d : Disk S)
    → check_ready d ≡ done tt d
    → start_of mode d.cdb + count_of mode d.cdb < 2 ^ 64
    → ((check_and_get_start_and_count mode d ≡ done (range_of mode d.cdb) d)
        × (0 < d.block_count)
        × (start_of mode d.cdb + count_of mode d.cdb ≤ d.block_count))
      ⊎ ((check_and_get_start_and_count mode d ≡ thrown lba_out_of_range d)
          × ((d.block_count ≡ 0) ⊎ (d.block_count < start_of mode d.cdb + count_of mode d.cdb)))
range_checked mode d ready small =
    let same = mod-eq_of_lt small in
    elim (Bool-cases (d.block_count == 0)) [
      | inl none ↦
          inr (checked mode d ready true (rw none refl), inl ((==_iff d.block_count 0).0 none))
      | inr some_blocks ↦
          elim (Bool-cases
            (ltb d.block_count (add64 (start_of mode d.cdb) (count_of mode d.cdb)))) [
              | inl behind ↦
                  let more = ltb→lt d.block_count _ behind in
                  inr (rejected mode d ready more, inr (omega (arith, more, same)))
              | inr within ↦
                  let less = not_ltb→le d.block_count _ within in
                  inl (
                    checked mode d ready false (rw (some_blocks, within) refl),
                    positive d.block_count some_blocks,
                    omega (arith, less, same),
                  )
            ]
    ]
  where
    positive : (n : ℕ) → (n == 0) ≡ false → 0 < n
    positive n e = ground arith

-- A range that ends at 2 ^ 64 or behind it is accepted as well, if the rest of the sum by 2 ^ 64
-- is at most the number of sectors.
pub wrapped_range_accepted :
    {S : Type 0} (d : Disk S)
    → check_ready d ≡ done tt d
    → 0 < d.block_count
    → 2 ^ 64 ≤ start_of AccessMode.rw16 d.cdb + count_of AccessMode.rw16 d.cdb
    → start_of AccessMode.rw16 d.cdb + count_of AccessMode.rw16 d.cdb ≤ 2 ^ 64 + d.block_count
    → d.block_count < 2 ^ 64
    → check_and_get_start_and_count AccessMode.rw16 d ≡ done (range_of AccessMode.rw16 d.cdb) d
wrapped_range_accepted d ready some_blocks wraps inside few =
    accepted AccessMode.rw16 d ready some_blocks (omega arith)

-- On a ready disk SEEK(6) with a 0 in its reserved byte refuses each of the last 255 sectors.
pub seek_6_refuses :
    {S : Type 0} (ops : CacheOps S) (d : Disk S)
    → check_ready d ≡ done tt d
    → get_or d.cdb 4 0 ≡ 0
    → start_of AccessMode.seek6 d.cdb < d.block_count
    → d.block_count < start_of AccessMode.seek6 d.cdb + 256
    → start_of AccessMode.seek6 d.cdb + 256 < 2 ^ 64
    → seek ops AccessMode.seek6 d ≡ thrown lba_out_of_range d
unfolding seek
seek_6_refuses ops d ready reserved inside late small =
    >>=-thrown (check_and_get_start_and_count AccessMode.seek6) (λ r. pure Next.status) {s = d}
      (rejected AccessMode.seek6 d ready (
        omega (
          arith,
          count_256 d.cdb reserved,
          mod-eq_of_lt small,
          late,
          ap (λ x. add64 (start_of AccessMode.seek6 d.cdb) x) (count_256 d.cdb reserved),
        )))
  where
    count_256 : (cdb : List ℕ) → get_or cdb 4 0 ≡ 0 → count_of AccessMode.seek6 cdb ≡ 256
    count_256 cdb e = ap (λ x. if x == 0 then 256 else x) e

-- On a ready disk with sectors SEEK(10) accepts the number behind the last sector.
pub seek_10_accepts :
    {S : Type 0} (ops : CacheOps S) (d : Disk S)
    → check_ready d ≡ done tt d
    → 0 < d.block_count
    → start_of AccessMode.seek10 d.cdb ≡ d.block_count
    → d.block_count < 2 ^ 64
    → seek ops AccessMode.seek10 d ≡ done Next.status d
unfolding seek count_of
seek_10_accepts ops d ready some_blocks behind few =
    >>=-done (check_and_get_start_and_count AccessMode.seek10) (λ r. pure Next.status) {s = d}
      (accepted AccessMode.seek10 d ready some_blocks (omega (arith, behind, few)))
