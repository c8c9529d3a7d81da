-- ===== src/Cache/Run.antt =====
-- A sequence of calls of a DiskCache, and the same sequence on a plain disk.
use scsi2pi.Base.{
  ℕ, zero, suc, ◌+◌, ◌*◌, ◌^◌, ◌<◌, ◌≤◌, ◌≡◌, inl, inr, refl, sym, ap, subst, ◌∙◌, Bool, true,
  arith, Option, none, some, List, [], not, not_==, ◌∷◌, ◌==◌, ==_iff, Bool-cases,
}
use native.Mathlib.Nat.{one-le-pow}
use mathlib.Core.Option.{some-injective}
use scsi2pi.File.{ImageFile, Durable}
use scsi2pi.Cache.Disk.{
  DiskCache, Read, Written, fresh_cache, with_shift, new_cache, find_shift, read_sectors,
  write_sectors, flush,
}
use scsi2pi.Cache.Changed.{with_sector}
use scsi2pi.Cache.Loaded.{Represents, Works}
use scsi2pi.Cache.Reads.{read_sectors_works}
use scsi2pi.Cache.Writes.{write_sectors_works}
use scsi2pi.Cache.Flushed.{flush-Represents}

pub data Request : Type 0 where
  read : ℕ → Request
  write : ℕ → (ℕ → ℕ) → Request
  flush_all : Request

-- The first `n` bytes of a buffer, the last one first.
unfoldable pub taken : (ℕ → ℕ) → ℕ → List ℕ
taken buf zero = []
taken buf (suc n) = buf n ∷ taken buf n

pub taken-same : (f g : ℕ → ℕ) (n : ℕ) → ((k : ℕ) → k < n → f k ≡ g k) → taken f n ≡ taken g n
unfolding taken
taken-same f g zero same = refl
taken-same f g (suc n) same =
    rw (same n (omega arith), taken-same f g n (λ k l. same k (omega arith))) refl

-- What the calls return: the data that are read, and whether writing and flushing worked.
pub data Reply : Type 0 where
  data_read : List ℕ → Reply
  result : Bool → Reply

unfoldable read_reply : Read → Option (DiskCache × Reply)
unfolding taken
read_reply none = none
read_reply (some (c, buf, n)) = some (c, data_read (taken buf n))

unfoldable write_reply : Written → Option (DiskCache × Reply)
write_reply none = none
write_reply (some (c, n)) = some (c, result (not (n == 0)))

-- One call, a read into a buffer of zeros.
unfoldable pub call : Request → DiskCache → Option (DiskCache × Reply)
unfolding read_sectors write_sectors flush read_reply write_reply
call (read b) c = read_reply (read_sectors (λ k. 0) b 1 c)
call (write b buf) c = write_reply (write_sectors buf b 1 c)
call flush_all c = some ((flush c).0, result (flush c).1)

unfoldable run_on : Reply → Option (DiskCache × List Reply) → Option (DiskCache × List Reply)
run_on x none = none
run_on x (some (c, xs)) = some (c, x ∷ xs)

unfoldable run_next :
    (DiskCache → Option (DiskCache × List Reply))
    → Option (DiskCache × Reply)
    → Option (DiskCache × List Reply)
unfolding run_on
run_next rest none = none
run_next rest (some (c, x)) = run_on x (rest c)

-- The calls in order; `none` where one of them crashes.
unfoldable pub run : List Request → DiskCache → Option (DiskCache × List Reply)
unfolding call run_next
run [] c = some (c, [])
run (r ∷ rs) c = run_next (λ e. run rs e) (call r c)

-- The same on a plain disk with sectors of 2 ^ `shift` bytes.
unfoldable pub disk_after : ℕ → Request → (ℕ → ℕ) → ℕ → ℕ
disk_after shift (read b) d = d
disk_after shift (write b buf) d = with_sector shift b buf d
disk_after shift flush_all d = d

unfoldable pub disk_reply : ℕ → Request → (ℕ → ℕ) → Reply
unfolding taken
disk_reply shift (read b) d = data_read (taken (λ k. d (b * 2 ^ shift + k)) (2 ^ shift))
disk_reply shift (write b buf) d = result true
disk_reply shift flush_all d = result true

unfoldable pub disk_run : ℕ → List Request → (ℕ → ℕ) → (ℕ → ℕ) × List Reply
unfolding disk_after disk_reply
disk_run shift [] d = (d, [])
disk_run shift (r ∷ rs) d =
    let rest = disk_run shift rs (disk_after shift r d) in (rest.0, disk_reply shift r d ∷ rest.1)

module _ (shift blocks : ℕ) where
  -- The request is for a sector of the disk.
  unfoldable pub InRange : Request → Type 0
  InRange (read b) = b < blocks
  InRange (write b buf) = b < blocks
  InRange flush_all = Unit {0}

  unfoldable pub AllInRange : List Request → Type 0
  unfolding InRange
  AllInRange [] = Unit {0}
  AllInRange (r ∷ rs) = InRange r × AllInRange rs

  positive : 0 < 2 ^ shift
  positive = one-le-pow shift 2 (omega arith)

  call-disk :
      (r : Request) (d : ℕ → ℕ) (c : DiskCache)
      → InRange r
      → Represents shift blocks d c
      → Works c
      → (e : DiskCache) × (call r c ≡ some (e, disk_reply shift r d))
        × Represents shift blocks (disk_after shift r d) e
        × Works e
  unfolding InRange call read_reply write_reply disk_reply disk_after
  call-disk (read b) d c inside rep w =
      let answer = read_sectors_works shift blocks d b c (λ k. 0) inside rep w in
      (
        answer.0,
        ap read_reply answer.2
            ∙ ap (λ x. some (answer.0, data_read x))
                (taken-same answer.1 (λ k. d (b * 2 ^ shift + k)) (2 ^ shift) answer.3),
        answer.4,
        answer.5,
      )
  call-disk (write b buf) d c inside rep w =
      let answer = write_sectors_works shift blocks d b c buf inside rep w in
      (
        answer.0,
        ap write_reply answer.1
            ∙ ap (λ x. some (answer.0, result (not x)))
                (not_== (2 ^ shift) 0 (λ e. omega (arith, e, positive))),
        answer.2,
        answer.3,
      )
  call-disk flush_all d c inside rep w =
      let answer = flush-Represents shift blocks d c rep in
      ((flush c).0, ap (λ x. some ((flush c).0, result x)) (answer.2 w).0, answer.0, (answer.2 w).1)

  -- Where the system refuses no access to the file, any sequence of reads, writes and flushes of
  -- sectors of the disk gets the replies of a plain disk with the same contents, and the cache
  -- stands for the contents of that disk afterwards.
  pub run-disk_run :
      (rs : List Request) (d : ℕ → ℕ) (c : DiskCache)
      → AllInRange rs
      → Represents shift blocks d c
      → Works c
      → (e : DiskCache) × (run rs c ≡ some (e, (disk_run shift rs d).1))
        × Represents shift blocks (disk_run shift rs d).0 e
        × Works e
  unfolding AllInRange run run_next run_on disk_run
  run-disk_run [] d c all rep w = (c, refl, rep, w)
  run-disk_run (r ∷ rs) d c all rep w =
      let one = call-disk r d c all.0 rep w in
      let more = run-disk_run rs (disk_after shift r d) one.0 all.1 one.2 one.3 in
      (
        more.0,
        ap (run_next (λ e. run rs e)) one.1 ∙ ap (run_on (disk_reply shift r d)) more.1,
        more.2,
        more.3,
      )

find_shift-some : (left shift size s : ℕ) → find_shift left shift size ≡ some s → 2 ^ s ≡ size
unfolding find_shift
find_shift-some zero shift size s e = absurd (ground (arith, e))
find_shift-some (suc left) shift size s e = elim (Bool-cases (2 ^ shift == size)) [
  | inl here ↦
      ap (λ x. 2 ^ x) (sym (some-injective shift s (sym (rw (here, find_shift) refl) ∙ e)))
      ∙ (==_iff (2 ^ shift) size).0 here
  | inr away ↦ find_shift-some left (shift + 1) size s (sym (rw (away, find_shift) refl) ∙ e)
]

with_shift-cases :
    (build : ℕ → DiskCache) (o : Option ℕ) (c : DiskCache)
    → with_shift build o ≡ some c
    → (s : ℕ) × (o ≡ some s) × (build s ≡ c)
unfolding with_shift
with_shift-cases build none c e = absurd (ground (arith, e))
with_shift-cases build (some s) c e = (s, refl, some-injective (build s) c e)

-- A new cache stands for the contents of its image file, if the file has all the sectors and
-- no write to it is lost when a stream is closed.
pub new_cache-Represents :
    (f : ImageFile) (opens_input opens_output : Bool) (size sectors : ℕ) (c : DiskCache)
    → new_cache f opens_input opens_output size sectors ≡ some c
    → sectors * size ≤ f.size
    → Durable f
    → (2 ^ c.shift_count ≡ size) × Represents c.shift_count sectors f.at c
unfolding new_cache
new_cache-Represents f i o size sectors c e fits durable =
    let built = with_shift-cases (fresh_cache f i o sectors) (find_shift 5 8 size) c e in
    let power = find_shift-some 5 8 size built.0 built.1 in
    subst (λ x. (2 ^ x.shift_count ≡ size) × Represents x.shift_count sectors f.at x) built.2
      (
        power,
        record {
          same_shift = refl;
          same_blocks = refl;
          holds = record {
            fits = subst (λ x. sectors * x ≤ f.size) (sym power) fits;
            durable = durable;
            cached = λ k t l is_t. ground (arith, is_t);
            unique = λ j k t u l m is_t. ground (arith, is_t);
            clean = λ b k l m clean. refl;
          };
        },
      )
