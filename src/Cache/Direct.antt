-- ===== src/Cache/Direct.antt =====
-- LinuxCache as a plain disk.
use scsi2pi.Base.{
  ℕ, ◌+◌, ◌*◌, ◌%◌, ◌^◌, ◌<◌, ◌≤◌, ◌≡◌, ◌≢◌, ◌⊎◌, inl, inr, refl, sym, ap, subst, ◌∙◌, Bool-cases,
  true, false, not, ◌&&◌, ltb, if◌then◌else◌, Option, none, some, arith, not_ltb, not_leb, le→leb,
  not_==, mul_le, block_inside, eq-cases,
}
use scsi2pi.Base.Words.{add64}
use scsi2pi.File.{IsSound, can_read, write, write-IsSound, at-write_in, at-write_out, size-write}
use scsi2pi.Cache.Track.{memcpy}
use scsi2pi.Cache.Track.Copied.{memcpy_inside, memcpy_same, memcpy_other}
use scsi2pi.Cache.Linux.{
  LinuxCache, offset_of, is_negative, read, read_sectors, write_bytes, write_sectors, flush,
  with_data, can_write, flushed,
}
use native.Mathlib.Nat.{mod-eq_of_lt, mul_comm, mod-le}

-- The file holds the contents of a disk of `blocks` sectors of `size` bytes, and no access to it
-- is refused.
pub record StandsFor (size blocks : ℕ) (d : ℕ → ℕ) (c : LinuxCache) : Type 0 where
  pub same_size : c.sector_size ≡ size
  pub same_sectors : c.sectors ≡ blocks
  pub fits : blocks * size ≤ c.file.size
  pub small : c.file.size < 2 ^ 63
  pub sound : IsSound c.file
  pub flushes : c.flush_fails ≡ false
  pub content : (b k : ℕ) → b < blocks → k < size → c.file.at (b * size + k) ≡ d (b * size + k)

-- A transfer that is not refused.
read_ok :
    (buf : ℕ → ℕ) (start length : ℕ) (c : LinuxCache)
    → length ≢ 0
    → (not (is_negative (offset_of c start) length) && can_read c.file (offset_of c start) length)
      ≡ true
    → read buf start length c
      ≡ some (c, memcpy buf 0 (λ i. c.file.at (offset_of c start + i)) length, length)
unfolding read
read_ok buf start length c some_length ok =
    ap
      (λ x.
        if x
        then none
        else (if not (is_negative (offset_of c start) length)
              && can_read c.file (offset_of c start) length
            then some (c, memcpy buf 0 (λ i. c.file.at (offset_of c start + i)) length, length)
            else some (record c { read_error_count = c.read_error_count + 1 }, buf, 0)))
      (not_== length 0 some_length)
    ∙ ap
        (λ x.
          if x
          then some (c, memcpy buf 0 (λ i. c.file.at (offset_of c start + i)) length, length)
          else some (record c { read_error_count = c.read_error_count + 1 }, buf, 0))
        ok

write_ok :
    (buf : ℕ → ℕ) (start length : ℕ) (c : LinuxCache)
    → length ≢ 0
    → can_write c start length ≡ true
    → c.flush_fails ≡ false
    → write_bytes buf start length c ≡ some (with_data buf start length c, length)
unfolding write_bytes flush
write_ok buf start length c some_length ok flushes =
    ap
      (λ x.
        if x
        then none
        else (if not (can_write c start length)
            then some (record c { write_error_count = c.write_error_count + 1 }, 0)
            else done))
      (not_== length 0 some_length)
    ∙ ap
        (λ x.
          if not x
          then some (record c { write_error_count = c.write_error_count + 1 }, 0)
          else done)
        ok
    ∙ elim (Bool-cases c.write_through) [
      | inl through ↦ rw (through, flushes) refl
      | inr back ↦ rw back refl
    ]
  where
    done : Option (LinuxCache × ℕ)
    done =
        if c.write_through
        then flushed length (flush (with_data buf start length c))
        else some (with_data buf start length c, length)

pub flush_ok : (c : LinuxCache) → c.flush_fails ≡ false → flush c ≡ (c, true)
unfolding flush
flush_ok c flushes =
    ap
      (λ x.
        if x then (record c { write_error_count = c.write_error_count + 1 }, false) else (c, true))
      flushes

module _ (size blocks : ℕ) (positive : 0 < size) (small : size < 2 ^ 31) (d : ℕ → ℕ)
    (c : LinuxCache) (s : StandsFor size blocks d c) (b : ℕ) (inside : b < blocks)
    (buf : ℕ → ℕ) where
  end_inside : b * size + size ≤ c.file.size
  end_inside = omega (arith, mul_le size inside, s.fits)

  offset-is : offset_of c b ≡ b * size
  offset-is =
      ap (λ x. x * b % 2 ^ 64) s.same_size
      ∙ mod-eq_of_lt (omega (arith, end_inside, s.small, positive))
      ∙ mul_comm size b

  length-is : c.sector_size * 1 % 2 ^ 32 ≡ size
  length-is = ap (λ x. x * 1 % 2 ^ 32) s.same_size ∙ mod-eq_of_lt (omega arith) ∙ omega arith

  in_range : ltb c.sectors (add64 b 1) ≡ false
  in_range =
      not_ltb c.sectors (add64 b 1) (omega (arith, inside, s.same_sectors, mod-le (b + 1) (2 ^ 64)))

  not_negative : is_negative (b * size) size ≡ false
  not_negative =
      rw
        (
          not_leb (2 ^ 63) (b * size) (omega (arith, end_inside, s.small, positive)),
          not_leb (2 ^ 31) size small,
        )
        refl

  read_outcome :
      read_sectors buf b 1 c
      ≡ some (c, memcpy buf 0 (λ i. c.file.at (offset_of c b + i)) size, size)
  unfolding read_sectors
  read_outcome =
      ap (λ x. if x then some (c, buf, 0) else read buf b (c.sector_size * 1 % 2 ^ 32) c) in_range
      ∙ ap (λ x. read buf b x c) length-is
      ∙ read_ok buf b size c (λ e. omega (arith, e, positive))
          (ap (λ x. not (is_negative x size) && can_read c.file x size) offset-is
            ∙ rw
                (
                  not_negative,
                  le→leb (b * size + size) c.file.size end_inside,
                  s.sound.reads (b * size) size,
                )
                refl)

  write_outcome : write_sectors buf b 1 c ≡ some (with_data buf b size c, size)
  unfolding write_sectors
  write_outcome =
      ap (λ x. if x then some (c, 0) else write_bytes buf b (c.sector_size * 1 % 2 ^ 32) c) in_range
      ∙ ap (λ x. write_bytes buf b x c) length-is
      ∙ write_ok buf b size c (λ e. omega (arith, e, positive))
          (ap (λ x. not (is_negative x size) && not (c.file.write_error x size)) offset-is
            ∙ rw (not_negative, s.sound.writes (b * size) size) refl)
          s.flushes

  write-content :
      (a k : ℕ)
      → a < blocks
      → k < size
      → (write c.file (b * size) size buf).at (a * size + k)
        ≡ memcpy d (b * size) buf size (a * size + k)
  write-content a k l m = elim (eq-cases b a) [
    | inl here ↦
        subst
          (λ x.
            (write c.file (b * size) size buf).at (x * size + k)
            ≡ memcpy d (b * size) buf size (x * size + k))
          here
          (at-write_in c.file (b * size) size buf (b * size + k) (omega arith) (omega arith)
            ∙ ap buf (omega arith)
            ∙ sym (memcpy_same d buf size b k m))
    | inr away ↦
        at-write_out c.file (b * size) size buf (a * size + k) (out a k away m)
          (omega (arith, block_inside size l m, s.fits))
        ∙ s.content a k l m
        ∙ sym (memcpy_other d buf size b k a away m)
  ]
    where
      order : (a : ℕ) → b ≢ a → (a < b) ⊎ (b < a)
      order a e = omega arith

      out :
          (a k : ℕ)
          → b ≢ a
          → k < size
          → (a * size + k < b * size) ⊎ (b * size + size ≤ a * size + k)
      out a k e m = elim (order a e) [
        | inl less ↦ inl (block_inside size less m)
        | inr more ↦ inr (omega (arith, mul_le size more))
      ]

  write-StandsFor : StandsFor size blocks (memcpy d (b * size) buf size) (with_data buf b size c)
  write-StandsFor =
      subst
        (λ x.
          StandsFor size blocks (memcpy d (b * size) buf size)
            (record c { file = write c.file x size buf }))
        (sym offset-is)
        (record {
          same_size = s.same_size;
          same_sectors = s.same_sectors;
          fits = omega (arith, s.fits, (size-write c.file (b * size) size buf).0);
          small = elim (size-write c.file (b * size) size buf).2 [
            | inl same ↦ omega (arith, same, s.small)
            | inr ends ↦ omega (arith, ends, end_inside, s.small)
          ];
          sound = write-IsSound c.file (b * size) size buf s.sound;
          flushes = s.flushes;
          content = write-content;
        })

-- For a LinuxCache whose file is accepted by the system in every access: a read of a sector
-- returns its contents and changes nothing, a write replaces the contents of that sector alone,
-- and flushing succeeds and changes nothing.
pub linux_cache-StandsFor :
    (size blocks : ℕ) (d : ℕ → ℕ) (c : LinuxCache) (b : ℕ) (buf : ℕ → ℕ)
    → 0 < size
    → size < 2 ^ 31
    → b < blocks
    → StandsFor size blocks d c
    → ((out : ℕ → ℕ) × (read_sectors buf b 1 c ≡ some (c, out, size))
        × ((k : ℕ) → k < size → out k ≡ d (b * size + k)))
      × ((e : LinuxCache) × (write_sectors buf b 1 c ≡ some (e, size))
          × StandsFor size blocks (memcpy d (b * size) buf size) e)
      × (flush c ≡ (c, true))
unfolding flush
linux_cache-StandsFor size blocks d c b buf positive small inside s = (
  (
    memcpy buf 0 (λ i. c.file.at (offset_of c b + i)) size,
    read_outcome size blocks positive small d c s b inside buf,
    λ k l.
        memcpy_inside buf (λ i. c.file.at (offset_of c b + i)) 0 size k (omega arith) (omega arith)
        ∙ ap c.file.at (omega (arith, offset-is size blocks positive small d c s b inside buf))
        ∙ s.content b k inside l,
  ),
  (
    with_data buf b size c,
    write_outcome size blocks positive small d c s b inside buf,
    write-StandsFor size blocks positive small d c s b inside buf,
  ),
  flush_ok c s.flushes,
)
