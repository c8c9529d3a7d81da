-- ===== src/Tape/Commands/Erasing.antt =====
-- The loop of Erase: enough rounds when the position is within the file, and what it leaves; and
-- what happens when the position is behind the end.
use scsi2pi.Base.{
  ℕ, zero, suc, ◌+◌, ◌-◌, ◌*◌, ◌/◌, ◌%◌, ◌^◌, ◌≤◌, ◌<◌, ◌≡◌, refl, ◌∙◌, sym, ap, subst, inl, inr,
  arith, done, stuck, if◌then◌else◌, ltb, ◌>>◌, Bool-cases, not_ltb, ltb→lt, lt→ltb,
}
use scsi2pi.Base.Int.{pos}
use scsi2pi.Base.Words.{add64}
use scsi2pi.File.{write, IsSound, write-IsSound, at-write_in, at-write_out, size-write}
use scsi2pi.Tape.{Tape, placed}
use scsi2pi.Tape.Records.{smaller}
use scsi2pi.Tape.Commands.Erase.{
  erase, erase_loop, erase_chunk, erase_size, gap_byte, erase_buffer_size,
}

-- The tape after one chunk, but for its position.
abbrev chunk_erased : ℕ → ℕ → Tape → Tape
chunk_erased p n t = record t {
  file = write t.file p n gap_byte;
  object_location = add64 t.object_location (n / t.block_size);
}

erase_chunk_lem :
    (t : Tape) (p n : ℕ)
    → IsSound t.file
    → erase_chunk n (placed p t) ≡ done tt (placed (p + n) (chunk_erased p n t))
unfolding erase_chunk
erase_chunk_lem t p n sound = rw (sound.writes p n)

erase_loop_end :
    (fuel remaining : ℕ) (t : Tape) → remaining < 4 → erase_loop fuel remaining t ≡ done tt t
unfolding erase_loop
erase_loop_end zero remaining t h = rw (lt→ltb remaining 4 h)
erase_loop_end (suc fuel) remaining t h = rw (lt→ltb remaining 4 h)

erase_loop_step :
    (fuel remaining : ℕ) (t : Tape) (p : ℕ)
    → IsSound t.file
    → 4 ≤ remaining
    → let chunk = smaller remaining erase_buffer_size in
      erase_loop (suc fuel) remaining (placed p t)
      ≡ erase_loop fuel (remaining - chunk) (placed (p + chunk) (chunk_erased p chunk t))
unfolding erase_loop
erase_loop_step fuel remaining t p sound h =
    rw
      (not_ltb remaining 4 h, erase_chunk_lem t p (smaller remaining erase_buffer_size) sound, ◌>>◌)

-- Up to three bytes behind the last full chunk stay.
abbrev pub erased : ℕ → ℕ
erased n = if ltb (n % 4096) 4 then n - n % 4096 else n

record Erases (p n : ℕ) (before after : Tape) : Type 0 where
  position : after.tape_position ≡ pos (p + n)
  pattern : (i : ℕ) → i < n → after.file.at (p + i) ≡ gap_byte i
  kept : (j : ℕ) → j < p → j < before.file.size → after.file.at j ≡ before.file.at j

-- The pattern repeats every four bytes, so it does not matter where a chunk begins.
gap_byte_shift : (i : ℕ) → gap_byte (4096 + i) ≡ gap_byte i
gap_byte_shift i = let e : (4096 + i) % 4 ≡ i % 4 = omega arith in rw e

-- One chunk and nothing more.
Erases-chunk : (t : Tape) (p n : ℕ) → Erases p n t (placed (p + n) (chunk_erased p n t))
Erases-chunk t p n = record {
  position = refl;
  pattern = λ i h.
      at-write_in t.file p n gap_byte (p + i) (omega arith) (omega arith)
      ∙ ap gap_byte (omega arith);
  kept = λ j h inside. at-write_out t.file p n gap_byte j (inl h) inside;
}

-- A full chunk before another stretch.
Erases-join :
    (t out : Tape) (p n : ℕ)
    → Erases (p + 4096) n (chunk_erased p 4096 t) out
    → Erases p (4096 + n) t out
Erases-join t out p n e = record {
  position = e.position ∙ ap pos (omega arith);
  pattern = pattern;
  kept = λ j h inside.
      e.kept j (omega arith) (omega (arith, size-write t.file p 4096 gap_byte))
      ∙ at-write_out t.file p 4096 gap_byte j (inl h) inside;
}
  where
    early : (i : ℕ) → i < 4096 → out.file.at (p + i) ≡ gap_byte i
    early i h =
        e.kept (p + i) (omega arith) (omega (arith, size-write t.file p 4096 gap_byte))
        ∙ at-write_in t.file p 4096 gap_byte (p + i) (omega arith) (omega arith)
        ∙ ap gap_byte (omega arith)

    late : (i : ℕ) → i < n → out.file.at (p + (4096 + i)) ≡ gap_byte (4096 + i)
    late i h = ap out.file.at (omega arith) ∙ e.pattern i h ∙ sym (gap_byte_shift i)

    pattern : (i : ℕ) → i < 4096 + n → out.file.at (p + i) ≡ gap_byte i
    pattern i h = elim (Bool-cases (ltb i 4096)) [
      | inl low ↦ early i (ltb→lt _ _ low)
      | inr high ↦
          let far : 4096 ≤ i = ground arith in
          let e' : 4096 + (i - 4096) ≡ i = omega arith in
          subst (λ k. out.file.at (p + k) ≡ gap_byte k) e' (late (i - 4096) (omega arith))
    ]

abbrev Ends : ℕ → ℕ → Tape → ℕ → Type 0
Ends fuel r t p =
    (out : Tape) × (erase_loop fuel r (placed p t) ≡ done tt out) × Erases p (erased r) t out

Erases-nothing : (t : Tape) (p n : ℕ) → n ≡ 0 → Erases p n t (placed p t)
Erases-nothing t p n e = record {
  position = ap pos (omega arith);
  pattern = λ i h. absurd (omega arith);
  kept = λ j h inside. refl;
}

Ends-short : (fuel r : ℕ) (t : Tape) (p : ℕ) → r < 4 → Ends fuel r t p
Ends-short fuel r t p h =
    (placed p t, erase_loop_end fuel r (placed p t) h, Erases-nothing t p (erased r) (ground arith))

-- One chunk that is not full.
Ends-partial :
    (fuel r : ℕ) (t : Tape) (p : ℕ) → IsSound t.file → 4 ≤ r → r < 4096 → Ends (suc fuel) r t p
Ends-partial fuel r t p sound lo hi =
    let small : smaller r erase_buffer_size ≡ r = ground arith in
    let all : erased r ≡ r = ground arith in
    let out = placed (p + r) (chunk_erased p r t) in
    (
      out,
      erase_loop_step fuel r t p sound lo
          ∙ rw small (erase_loop_end fuel (r - r) out (omega arith)),
      rw all (Erases-chunk t p r),
    )

Ends-full :
    (fuel r : ℕ) (t : Tape) (p : ℕ)
    → IsSound t.file
    → 4096 ≤ r
    → Ends fuel (r - 4096) (chunk_erased p 4096 t) (p + 4096)
    → Ends (suc fuel) r t p
Ends-full fuel r t p sound lo (out, e, rest) =
    let full : smaller r erase_buffer_size ≡ 4096 = ground arith in
    let all : erased r ≡ 4096 + erased (r - 4096) = ground arith in
    (
      out,
      erase_loop_step fuel r t p sound (omega arith) ∙ rw full e,
      rw all (Erases-join t out p (erased (r - 4096)) rest),
    )

-- With a round of fuel for each started chunk the loop ends.
erase_loop-Erases :
    (fuel r : ℕ) (t : Tape) (p : ℕ) → IsSound t.file → r < fuel * 4096 + 4 → Ends fuel r t p
erase_loop-Erases zero r t p sound h = Ends-short zero r t p (omega arith)
erase_loop-Erases (suc fuel) r t p sound h = elim (Bool-cases (ltb r 4)) [
  | inl short ↦ Ends-short (suc fuel) r t p (ltb→lt _ _ short)
  | inr long ↦ elim (Bool-cases (ltb r 4096)) [
    | inl partial ↦ Ends-partial fuel r t p sound (ground arith) (ltb→lt _ _ partial)
    | inr full ↦ Ends-full fuel r t p sound (ground arith) (
        erase_loop-Erases fuel (r - 4096) (chunk_erased p 4096 t) (p + 4096)
          (write-IsSound t.file p 4096 gap_byte sound) (omega arith))
  ]
]

erase_size_within :
    (t : Tape) (p : ℕ)
    → p ≤ t.file_size
    → t.file_size < 2 ^ 63
    → erase_size (placed p t) ≡ t.file_size - p
erase_size_within t p h small = omega arith

-- From a position within the file Erase ends, if the fuel is a round for each started chunk of 4096
-- bytes. It leaves the position at most three bytes before the end, the gap pattern in every byte
-- from the old position up to the new one, and every byte before the old position as it was.
-- The system refuses no transfer.
pub erase_within :
    (fuel : ℕ) (t : Tape) (p : ℕ)
    → IsSound t.file
    → p ≤ t.file_size
    → t.file_size < 2 ^ 63
    → t.file_size - p < fuel * 4096 + 4
    → (out : Tape) × (erase fuel (placed p t) ≡ done tt out)
      × (out.tape_position ≡ pos (p + erased (t.file_size - p)))
      × (t.file_size < p + erased (t.file_size - p) + 4)
      × ((i : ℕ) → i < erased (t.file_size - p) → out.file.at (p + i) ≡ gap_byte i)
      × ((j : ℕ) → j < p → j < t.file.size → out.file.at j ≡ t.file.at j)
unfolding erase
erase_within fuel t p sound h small enough =
    let (out, e, r) = erase_loop-Erases fuel (t.file_size - p) t p sound enough in
    (out, rw (erase_size_within t p h small) e, r.position, ground arith, r.pattern, r.kept)

-- More rounds than the fuel has.
erase_loop-stuck :
    (fuel r : ℕ) (t : Tape) (p : ℕ)
    → IsSound t.file
    → fuel * 4096 + 4 ≤ r
    → erase_loop fuel r (placed p t) ≡ stuck
erase_loop-stuck zero r t p sound h = unfold erase_loop in rw (not_ltb r 4 (omega arith))
erase_loop-stuck (suc fuel) r t p sound h =
    let full : smaller r erase_buffer_size ≡ 4096 = ground arith in
    erase_loop_step fuel r t p sound (omega arith)
    ∙ rw full (
        erase_loop-stuck fuel (r - 4096) (chunk_erased p 4096 t) (p + 4096)
          (write-IsSound t.file p 4096 gap_byte sound) (omega arith))

-- Behind the end of the file, where an appending write can leave the position, the size that is
-- left wraps around: Erase goes on writing for more than 2 ^ 50 chunks of 4096 bytes. The system refuses no
-- transfer.
pub erase_behind :
    (fuel : ℕ) (t : Tape) (p : ℕ)
    → IsSound t.file
    → t.file_size < p
    → p < 2 ^ 62
    → fuel ≤ 2 ^ 50
    → erase fuel (placed p t) ≡ stuck
unfolding erase
erase_behind fuel t p sound behind small few =
    erase_loop-stuck fuel (erase_size (placed p t)) t p sound (omega arith)
