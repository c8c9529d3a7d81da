-- ===== src/Tape/Commands/Filemarks/Written.antt =====
-- What WRITE FILEMARKS leaves in the image.
use scsi2pi.Base.{
  true, ◌>>◌, ◌>>=◌, pure, ℕ, zero, suc, ◌+◌, ◌-◌, ◌*◌, ◌≤◌, ◌<◌, ◌≡◌, refl, ◌∙◌, ap, arith, inl,
  inr, >>-done, false, Bool-cases, get_or, done, ltb, some, subst,
}
use scsi2pi.Base.Int.{pos}
use scsi2pi.File.{ImageFile, IsSound, write-IsSound, at-write_in, at-write_out, size-write}
use scsi2pi.Simh.Records.{read_meta_data_there}
use scsi2pi.Simh.{read_meta_data, SimhClass, to_little_endian}
use scsi2pi.Memory.{int24_at}
use scsi2pi.Primary
use scsi2pi.Tape.{Tape, ObjectType, Next, placed, check_ready, check_write_preconditions}
use scsi2pi.Tape.Commands.{cdb_bit}
use scsi2pi.Tape.Records.{write_meta_data}
use scsi2pi.Tape.Records.Limits.{meta_data_written}
use scsi2pi.Tape.Commands.Filemarks.{filemarks, write_filemarks, write_filemarks_simh}
use scsi2pi.Tape.Commands.Filemarks.Single.{
  tape_mark, tape_mark_bytes, with_end, marked, write_filemark_lem,
}

-- `u` has n bytes of filemarks more than `t`, from p on.
record Marked (p n : ℕ) (t u : Tape) : Type 0 where
  position : u.tape_position ≡ pos (p + n)
  marks : (i : ℕ) → i < n → u.file.at (p + i) ≡ 0
  room : p + n ≤ u.file.size
  kept : (j : ℕ) → j < p → u.file.at j ≡ t.file.at j
  sound : IsSound u.file
  limit : u.max_file_size ≡ t.max_file_size
  simh : u.tar_file ≡ t.tar_file
  location : u.object_location ≡ t.object_location

-- Writing the end-of-data object changes nothing before it.
module _ (q : ℕ) (t : Tape) (sound : IsSound t.file) where
  at-with_end : (j : ℕ) → j < q → j < t.file.size → (with_end q t).at j ≡ t.file.at j
  at-with_end j before inside = elim (Bool-cases (ltb t.file_size (q + 4))) [
    | inl e ↦ rw e refl
    | inr e ↦ rw e (at-write_out t.file q 4 _ j (inl before) inside)
  ]

  size-with_end : t.file.size ≤ (with_end q t).size
  size-with_end = elim (Bool-cases (ltb t.file_size (q + 4))) [
    | inl e ↦ rw e (omega arith)
    | inr e ↦ rw e (size-write t.file q 4 _).0
  ]

  with_end-IsSound : IsSound (with_end q t)
  with_end-IsSound = elim (Bool-cases (ltb t.file_size (q + 4))) [
    | inl e ↦ rw e sound
    | inr e ↦ rw e (write-IsSound t.file q 4 _ sound)
  ]

-- The first filemark.
module _ (p : ℕ) (t : Tape) (sound : IsSound t.file) (inside : p ≤ t.file.size) where
  abbrev after : Tape
  after = record t { tape_position = pos (p + 4); file = with_end (p + 4) (marked p t) }

  abbrev base : ImageFile
  base = meta_data_written SimhClass.tape_mark_good_data_record 0 p t.file

  base-IsSound : IsSound base
  base-IsSound = write-IsSound t.file p 4 _ sound

  base_size : p + 4 ≤ base.size
  base_size = (size-write t.file p 4 (λ i. get_or (to_little_endian tape_mark) i 0)).1

  after-Marked : Marked p 4 t after
  after-Marked = record {
    position = refl;
    marks = λ i h.
        at-with_end (p + 4) (marked p t) base-IsSound (p + i) (omega arith)
          (omega (arith, base_size))
        ∙ at-write_in t.file p 4 _ (p + i) (omega arith) (omega arith)
        ∙ tape_mark_bytes (p + i - p);
    room = omega (arith, base_size, size-with_end (p + 4) (marked p t) base-IsSound);
    kept = λ j h.
        at-with_end (p + 4) (marked p t) base-IsSound j (omega arith) (omega (arith, base_size))
        ∙ at-write_out t.file p 4 _ j (inl h) (omega arith);
    sound = with_end-IsSound (p + 4) (marked p t) base-IsSound;
    limit = refl;
    simh = refl;
    location = refl;
  }

Marked-join :
    (p n : ℕ) (t u v : Tape) → Marked p 4 t u → Marked (p + 4) n u v → Marked p (4 + n) t v
Marked-join p n t u v a b = record {
  position = b.position ∙ ap pos (omega arith);
  marks = λ i h. elim (Bool-cases (ltb i 4)) [
    | inl early ↦ b.kept (p + i) (ground arith) ∙ a.marks i (ground arith)
    | inr late ↦ ap v.file.at (ground arith) ∙ b.marks (i - 4) (ground arith)
  ];
  room = omega (arith, b.room);
  kept = λ j h. b.kept j (omega arith) ∙ a.kept j h;
  sound = b.sound;
  limit = b.limit ∙ a.limit;
  simh = b.simh ∙ a.simh;
  location = b.location ∙ a.location;
}

filemarks-Marked :
    (n p : ℕ) (t : Tape)
    → IsSound t.file
    → t.tar_file ≡ false
    → p ≤ t.file.size
    → (p + 4 * n) + (p + 4 * n + 4) ≤ t.max_file_size
    → (u : Tape) × (filemarks n (placed p t) ≡ done tt u) × Marked p (4 * n) t u
unfolding filemarks
filemarks-Marked zero p t sound simh inside fits = (
  placed p t,
  refl,
  record {
    position = ap pos (omega arith);
    marks = λ i h. absurd (omega arith);
    room = omega arith;
    kept = λ j h. refl;
    sound = sound;
    limit = refl;
    simh = refl;
    location = refl;
  },
)
filemarks-Marked (suc n) p t sound simh inside fits =
    let a = after-Marked p t sound inside in
    let (u, e, b) =
      filemarks-Marked n (p + 4) (after p t sound inside) a.sound simh a.room (omega arith) in
    (
      u,
      >>-done (write_meta_data ObjectType.filemark 0) (filemarks n)
            (write_filemark_lem t p sound simh (omega arith))
          ∙ e,
      subst (λ k. Marked p k t u) (omega arith)
          (Marked-join p (4 * n) t (after p t sound inside) u a b),
    )

-- The handler reaches the loop where it has nothing to object to.
write_filemarks_lem :
    (fuel p : ℕ) (t : Tape)
    → t.primary.device.reset ≡ false
    → t.primary.device.attn ≡ false
    → t.primary.device.ready ≡ true
    → t.primary.device.write_protected ≡ false
    → t.tar_file ≡ false
    → cdb_bit 2 t ≡ false
    → write_filemarks fuel false (placed p t)
      ≡ (filemarks (int24_at t.cdb 2) >> pure Next.status) (placed p t)
unfolding write_filemarks write_filemarks_simh check_ready Primary.check_ready
    check_write_preconditions
write_filemarks_lem fuel p t no_reset no_attn ready unprotected simh no_setmarks =
    rw (◌>>◌, ◌>>=◌, no_reset, no_attn, ready, simh, no_setmarks, unprotected) refl

-- WRITE FILEMARKS(6) of n filemarks, not of setmarks, by a drive that is ready and not
-- write-protected, on a SIMH image with room for them, that is with the position p within the file
-- and 2 * (p + 4 * n) + 4 within the size limit, ends with a STATUS phase: the drive then stands behind
-- the filemarks, ReadMetaData finds one at each of the n places from p on, the bytes before p are as
-- they were, and the object location is not counted up. The system refuses no transfer.
pub filemarks_written :
    (fuel p : ℕ) (t : Tape)
    → IsSound t.file
    → t.primary.device.reset ≡ false
    → t.primary.device.attn ≡ false
    → t.primary.device.ready ≡ true
    → t.primary.device.write_protected ≡ false
    → t.tar_file ≡ false
    → cdb_bit 2 t ≡ false
    → p ≤ t.file.size
    → (p + 4 * int24_at t.cdb 2) + (p + 4 * int24_at t.cdb 2 + 4) ≤ t.max_file_size
    → (u : Tape) × (write_filemarks fuel false (placed p t) ≡ done Next.status u)
      × (u.tape_position ≡ pos (p + 4 * int24_at t.cdb 2))
      × ((i : ℕ) → i < int24_at t.cdb 2 → read_meta_data u.file (p + 4 * i) ≡ some tape_mark)
      × ((j : ℕ) → j < p → u.file.at j ≡ t.file.at j)
      × (u.object_location ≡ t.object_location)
filemarks_written fuel p t sound no_reset no_attn ready unprotected simh no_setmarks inside fits =
    let n = int24_at t.cdb 2 in
    let (u, e, m) = filemarks-Marked n p t sound simh inside fits in
    let at : (i : ℕ) → i < n → (k : ℕ) → k < 4 → (q : ℕ) → q ≡ p + (4 * i + k) → u.file.at q ≡ 0 =
      λ i h k l q same. ap u.file.at same ∙ m.marks (4 * i + k) (omega arith) in
    (
      u,
      write_filemarks_lem fuel p t no_reset no_attn ready unprotected simh no_setmarks
          ∙ >>-done (filemarks n) (pure Next.status) e,
      m.position,
      λ i h.
          read_meta_data_there u.file (p + 4 * i) 0 m.sound (omega arith) (omega (arith, m.room))
            (at i h 0 (omega arith) _ (omega arith)) (at i h 1 (omega arith) _ (omega arith))
            (at i h 2 (omega arith) _ (omega arith)) (at i h 3 (omega arith) _ (omega arith)),
      m.kept,
      m.location,
    )
