-- ===== src/File.antt =====
-- An image file behind a std::fstream: the bytes, and which transfers the system refuses. A
-- transfer is a seek followed by one read or write; errors are chosen by the environment as a
-- function of offset and length. A refused write shows in the state of the stream. A lost one is in
-- the buffer of the stream, which still is good, and fails when the stream is closed; the tracks of
-- DiskCache, which close their stream after use, are the only code where the model has lost writes.
use scsi2pi.Base.{
  ℕ, zero, suc, ◌+◌, ◌-◌, ◌≤◌, ◌<◌, ◌≡◌, ◌⊎◌, arith, false, Bool, not, ◌&&◌, List, [], ◌∷◌, ltb,
  leb, if◌then◌else◌, length, get_or,
}

pub record ImageFile : Type 0 where
  pub size : ℕ
  pub at : ℕ → ℕ
  pub read_error : ℕ → ℕ → Bool
  pub write_error : ℕ → ℕ → Bool
  pub write_lost : ℕ → ℕ → Bool

-- read() of `n` bytes at `offset` ends with a good stream.
abbrev pub can_read : ImageFile → ℕ → ℕ → Bool
can_read f offset n = leb (offset + n) f.size && not (f.read_error offset n)

-- The `n` bytes at `offset`.
abbrev pub bytes : ImageFile → ℕ → ℕ → List ℕ
bytes f offset zero = []
bytes f offset (suc n) = f.at offset ∷ bytes f (offset + 1) n

-- The contents after write() of `n` bytes, `source i` each, at `offset`. A write behind the end
-- extends the file, and a gap reads as zero.
abbrev pub written : ImageFile → ℕ → ℕ → (ℕ → ℕ) → ℕ → ℕ
written f offset n source p =
    if leb offset p && ltb p (offset + n)
    then source (p - offset)
    else if ltb p f.size
    then f.at p
    else 0

unfoldable pub write : ImageFile → ℕ → ℕ → (ℕ → ℕ) → ImageFile
write f offset n source = record f {
  size = if ltb f.size (offset + n) then offset + n else f.size;
  at = written f offset n source;
}

abbrev pub write_list : ImageFile → ℕ → List ℕ → ImageFile
write_list f offset bs = write f offset (length bs) (λ i. get_or bs i 0)

-- What a write leaves: the new bytes, the old ones elsewhere, and the larger size.
module _ (f : ImageFile) (offset n : ℕ) (source : ℕ → ℕ) where
  pub at-write_in :
      (p : ℕ) → offset ≤ p → p < offset + n → (write f offset n source).at p ≡ source (p - offset)
  unfolding write
  at-write_in p lo hi = ground arith

  pub at-write_out :
      (p : ℕ)
      → (p < offset) ⊎ (offset + n ≤ p)
      → p < f.size
      → (write f offset n source).at p ≡ f.at p
  unfolding write
  at-write_out p out h = ground arith

  pub size-write :
      (f.size ≤ (write f offset n source).size)
      × (offset + n ≤ (write f offset n source).size)
      × (((write f offset n source).size ≡ f.size) ⊎ ((write f offset n source).size ≡ offset + n))
  unfolding write
  size-write = ground arith

-- No write is lost when a stream is closed.
abbrev pub Durable : ImageFile → Type 0
Durable f = (o n : ℕ) → f.write_lost o n ≡ false

-- No transfer is refused by the system.
pub record IsSound (f : ImageFile) : Type 0 where
  pub reads : (o n : ℕ) → f.read_error o n ≡ false
  pub writes : (o n : ℕ) → f.write_error o n ≡ false

pub write-IsSound :
    (f : ImageFile) (offset n : ℕ) (source : ℕ → ℕ) → IsSound f → IsSound (write f offset n source)
unfolding write
write-IsSound f offset n source s = record { reads = s.reads; writes = s.writes }
