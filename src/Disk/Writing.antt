-- ===== src/Disk/Writing.antt =====
-- WRITE replaces the contents of the sectors that the CDB names, one after the other.
use scsi2pi.Base.{
  ℕ, ◌+◌, ◌*◌, ◌%◌, ◌^◌, ◌<◌, ◌≤◌, ◌≡◌, refl, sym, ap, subst, ◌∙◌, Bool, true, false, arith, leb,
  if◌then◌else◌, le→leb, not_==, some, List, [], ◌∷◌, length, Outcome, done, thrown, stuck, ◌>>=◌,
  ◌>>◌, >>=-done, >>-done,
}
use scsi2pi.Base.Words.{add64}
use scsi2pi.Scsi.{ScsiException, SenseKey, Asc}
use scsi2pi.Cache.Track.{memcpy}
use scsi2pi.Disk.{
  Disk, CacheOps, AccessMode, M, Next, check_ready, start_of, count_of,
  check_and_get_start_and_count, check_write_preconditions, scsi_exception,
}
use scsi2pi.Disk.Access.{
  write, write_verify, write_data, write_to, sectors_written, is_write_long, is_verify, mul32,
  set_transfer_size, chunk_count, medium_error,
}
use scsi2pi.Disk.Backing.{SectorCache}
use scsi2pi.Disk.Ranges.{accepted, range_valid}
use scsi2pi.Disk.Reading.{Backed, ready-check_ready}
use native.Mathlib.Nat.{mod-eq_of_lt, one-mul}

-- The calls of WriteData for sectors that the host sends into the controller's buffer.
unfoldable pub store : {S : Type 0} → CacheOps S → ℕ → ℕ → List (ℕ → ℕ) → M S (Unit {0})
unfolding write_data
store ops command size [] d = done tt d
store ops command size (buf ∷ rest) d =
    (write_data ops command size >> store ops command size rest) (record d { buffer = buf })

-- The contents of the disk with other sectors from `b` on.
unfoldable pub overwritten : (size : ℕ) → (ℕ → ℕ) → ℕ → List (ℕ → ℕ) → ℕ → ℕ
overwritten size x b [] = x
overwritten size x b (buf ∷ rest) = overwritten size (memcpy x (b * size) buf size) (b + 1) rest

-- A command that writes sectors.
pub record Writes (command : ℕ) : Type 0 where
  pub no_long : is_write_long command ≡ false
  pub no_verify : is_verify command ≡ false

module _ {size blocks : ℕ} {S : Type 0} (K : SectorCache size blocks S) (positive : 0 < size)
    (fits : blocks < 2 ^ 63) (command : ℕ) (w : Writes command) where
  record OneWrite (x : ℕ → ℕ) (d : Disk S) (o : Outcome ScsiException (Disk S) ℕ) : Type 0 where
    end_disk : Disk S
    is_done : o ≡ done size end_disk
    backed : Backed K x end_disk
    single : end_disk.sector_transfer_count ≡ 1
    next : end_disk.next_sector ≡ d.next_sector + 1

  sector_written :
      (x y : ℕ → ℕ) (d : Disk S) (e : S)
      → Backed K x d
      → K.Stands y e
      → d.sector_transfer_count ≡ 1
      → d.next_sector < blocks
      → OneWrite y d (sectors_written K.ops size d (some (e, size)))
  unfolding sectors_written
  sector_written x y d e b stands one inside = record {
    end_disk = after;
    is_done =
        ap
          (λ z.
            if z
            then thrown (medium_error Asc.write_fault) (record d { cache = some e })
            else done size after)
          (not_== size 0 (λ z. omega (arith, z, positive)));
    backed = record {
      ready = b.ready;
      store = e;
      is_cache = refl;
      stands = stands;
      same_size = b.same_size;
      same_count = b.same_count;
      unoptimized = b.unoptimized;
    };
    single = one;
    next = ap (λ z. add64 d.next_sector z) one ∙ mod-eq_of_lt (omega (arith, inside, fits));
  }
    where
      after : Disk S
      after = record d {
        cache = some e;
        next_sector = add64 d.next_sector d.sector_transfer_count;
        sector_write_count = add64 d.sector_write_count d.sector_transfer_count;
      }

  write_to_cache :
      (d : Disk S) (s : S)
      → write_to K.ops command size d (some s)
        ≡ sectors_written K.ops size d
            (K.ops.write_sectors d.buffer d.next_sector d.sector_transfer_count s)
  unfolding write_to
  write_to_cache d s = rw (w.no_long, w.no_verify) refl

  write_data-OneWrite :
      (x : ℕ → ℕ) (d : Disk S)
      → Backed K x d
      → d.sector_transfer_count ≡ 1
      → d.next_sector < blocks
      → OneWrite (memcpy x (d.next_sector * size) d.buffer size) d (write_data K.ops command size d)
  unfolding write_data
  write_data-OneWrite x d b one inside =
      let r = K.writes x b.store d.buffer d.next_sector inside b.stands in
      subst (OneWrite (memcpy x (d.next_sector * size) d.buffer size) d)
        (sym (
          ap
            (λ z.
              if z then (check_ready >>= λ _ e. write_to K.ops command size e e.cache) d else stuck)
            in_bounds
          ∙ >>=-done check_ready (λ _ e. write_to K.ops command size e e.cache) {s = d}
              (ready-check_ready K x d b)
          ∙ ap (write_to K.ops command size d) b.is_cache
          ∙ write_to_cache d b.store
          ∙ ap
              (λ z.
                sectors_written K.ops size d (K.ops.write_sectors d.buffer d.next_sector z b.store))
              one
          ∙ ap (sectors_written K.ops size d) r.1))
        (sector_written x _ d r.0 b r.2 one inside)
    where
      in_bounds : leb (add64 d.next_sector d.sector_transfer_count) d.block_count ≡ true
      in_bounds =
          ap (λ z. leb (add64 d.next_sector z) d.block_count) one
          ∙ le→leb _ d.block_count (
              omega (
                arith,
                inside,
                b.same_count,
                mod-eq_of_lt {n = d.next_sector + 1} {m = 2 ^ 64} (omega (arith, inside, fits)),
              ))

  buffered : (x buf : ℕ → ℕ) (d : Disk S) → Backed K x d → Backed K x (record d { buffer = buf })
  buffered x buf d b = record {
    ready = b.ready;
    store = b.store;
    is_cache = b.is_cache;
    stands = b.stands;
    same_size = b.same_size;
    same_count = b.same_count;
    unoptimized = b.unoptimized;
  }

  pub store-overwritten :
      (bufs : List (ℕ → ℕ)) (x : ℕ → ℕ) (d : Disk S)
      → Backed K x d
      → d.sector_transfer_count ≡ 1
      → d.next_sector + length bufs ≤ blocks
      → (f : Disk S) × (store K.ops command size bufs d ≡ done tt f)
        × Backed K (overwritten size x d.next_sector bufs) f
  unfolding store overwritten
  store-overwritten [] x d b one inside = (d, refl, b)
  store-overwritten (buf ∷ rest) x d b one inside =
      let filled = record d { buffer = buf } in
      let r = write_data-OneWrite x filled (buffered x buf d b) one (omega arith) in
      let more =
        store-overwritten rest (memcpy x (d.next_sector * size) buf size) r.end_disk r.backed
          r.single (omega (arith, r.next)) in
      (
        more.0,
        >>-done (write_data K.ops command size) (store K.ops command size rest) {s = filled}
              r.is_done
            ∙ more.1,
        subst
            (λ z.
              Backed K (overwritten size (memcpy x (d.next_sector * size) buf size) z rest) more.0)
            r.next more.2,
      )

-- The state in which WRITE asks for data.
abbrev writing : {S : Type 0} → ℕ → ℕ → Disk S → Disk S
writing start count d =
    record (set_transfer_size (mul32 count d.block_size)
      (mul32 (chunk_count d.optimized count) d.block_size) d) {
        next_sector = start;
        sector_transfer_count = chunk_count d.optimized count;
      }

writing-Backed :
    {size blocks : ℕ} {S : Type 0} (K : SectorCache size blocks S) (x : ℕ → ℕ) (start count : ℕ)
    (d : Disk S)
    → Backed K x d
    → Backed K x (writing start count d)
writing-Backed K x start count d b = record {
  ready = b.ready;
  store = b.store;
  is_cache = b.is_cache;
  stands = b.stands;
  same_size = b.same_size;
  same_count = b.same_count;
  unoptimized = b.unoptimized;
}

allowed :
    {S : Type 0} (d : Disk S)
    → d.primary.device.write_protected ≡ false
    → check_write_preconditions d ≡ done tt d
unfolding check_write_preconditions
allowed d e =
    ap
      (λ z.
        if z
        then thrown (scsi_exception SenseKey.data_protect Asc.write_protected) d
        else done tt d)
      e

asks :
    {S : Type 0} (ops : CacheOps S) (start count : ℕ) (d : Disk S)
    → write_verify ops start count true d
      ≡ done
          (Next.data_out (mul32 (chunk_count d.optimized count) d.block_size))
          (writing start count d)
unfolding write_verify
asks ops start count d = refl

one_sector :
    (size block_size count : ℕ) (optimized : Bool)
    → optimized ≡ false
    → block_size ≡ size
    → size < 2 ^ 31
    → mul32 (chunk_count optimized count) block_size ≡ size
one_sector size block_size count optimized off same small =
    ap (λ z. mul32 (chunk_count z count) block_size) off
    ∙ ap (λ z. mul32 1 z) same
    ∙ ap (λ z. z % 2 ^ 32) (one-mul size)
    ∙ mod-eq_of_lt (omega arith)

-- A disk that is ready, is not write-protected, transfers one sector at a time and has a cache that
-- stands for the contents `x`: a WRITE of one or more sectors within the disk asks for DATA OUT, and
-- storing as many sectors leaves a cache that stands for `x` with these sectors instead.
pub write-overwritten :
    {size blocks : ℕ} {S : Type 0} (K : SectorCache size blocks S) (x : ℕ → ℕ) (mode : AccessMode)
    (command : ℕ) (d : Disk S) (bufs : List (ℕ → ℕ))
    → 0 < size
    → size < 2 ^ 31
    → blocks < 2 ^ 63
    → Writes command
    → Backed K x d
    → d.primary.device.write_protected ≡ false
    → 0 < count_of mode d.cdb
    → start_of mode d.cdb + count_of mode d.cdb ≤ blocks
    → length bufs ≡ count_of mode d.cdb
    → (e : Disk S) × (f : Disk S) × (write K.ops mode d ≡ done (Next.data_out size) e)
      × (store K.ops command size bufs e ≡ done tt f)
      × Backed K (overwritten size x (start_of mode d.cdb) bufs) f
unfolding write
write-overwritten {size = size} {blocks = blocks} K x mode command d bufs positive small fits w b
      writable some_sectors inside all =
    let start = start_of mode d.cdb in
    let count = count_of mode d.cdb in
    let rest =
      store-overwritten K positive fits command w bufs x (writing start count d)
        (writing-Backed K x start count d b) (ap (λ z. chunk_count z count) b.unoptimized)
        (omega (arith, all, inside)) in
    (
      writing start count d,
      rest.0,
      >>-done check_write_preconditions
            (check_and_get_start_and_count mode >>= λ r. write_verify K.ops r.1 r.2 r.0) {s = d}
            (allowed d writable)
          ∙ >>=-done (check_and_get_start_and_count mode) (λ r. write_verify K.ops r.1 r.2 r.0)
              {s = d}
              (accepted mode d (ready-check_ready K x d b) (omega (arith, b.same_count)) (
                  omega (
                    arith,
                    b.same_count,
                    mod-eq_of_lt {n = start + count} {m = 2 ^ 64} (omega arith),
                  ))
                ∙ ap (λ z. done z d) (range_valid mode d.cdb some_sectors))
          ∙ asks K.ops start count d
          ∙ ap (λ z. done (Next.data_out z) (writing start count d))
              (one_sector size d.block_size count d.optimized b.unoptimized b.same_size small),
      rest.1,
      rest.2,
    )
