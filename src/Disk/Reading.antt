-- ===== src/Disk/Reading.antt =====
-- READ delivers the contents of the sectors that the CDB names, one after the other.
use scsi2pi.Base.{
  ℕ, zero, suc, ◌+◌, ◌-◌, ◌*◌, ◌%◌, ◌^◌, ◌<◌, ◌≤◌, ◌≡◌, refl, sym, ap, subst, ◌∙◌, true, false,
  arith, leb, if◌then◌else◌, le→leb, not_==, some, List, [], ◌∷◌, Outcome, done, thrown, stuck,
  ◌>>=◌, >>=-done, pure,
}
use scsi2pi.Base.Words.{add64}
use scsi2pi.Scsi.{ScsiException, Asc}
use scsi2pi.Primary
use scsi2pi.Cache.Run.{taken, taken-same}
use scsi2pi.Disk.{
  Disk, CacheOps, AccessMode, M, Next, check_ready, start_of, count_of,
  check_and_get_start_and_count,
}
use scsi2pi.Disk.Access.{
  read, read_data, read_from, sectors_read, start_read, mul32, set_transfer_size, chunk_count,
  medium_error,
}
use scsi2pi.Disk.Backing.{SectorCache}
use scsi2pi.Disk.Ranges.{range_valid, accepted}
use native.Mathlib.Nat.{mod-eq_of_lt, mul-one}

-- `n` calls of ReadData, and the bytes that each leaves in the controller's buffer.
unfoldable pub collect : {S : Type 0} → CacheOps S → ℕ → M S (List (List ℕ))
unfolding read_data taken
collect ops zero = pure []
collect ops (suc n) =
    read_data ops >>= λ len d. (collect ops n >>= λ rest. pure (taken d.buffer len ∷ rest)) d

-- The contents of `n` sectors from `b` on.
unfoldable pub sectors_of : (size : ℕ) → (ℕ → ℕ) → ℕ → ℕ → List (List ℕ)
unfolding taken
sectors_of size x b zero = []
sectors_of size x b (suc n) = taken (λ k. x (b * size + k)) size ∷ sectors_of size x (b + 1) n

module _ {size blocks : ℕ} {S : Type 0} (K : SectorCache size blocks S) where
  -- A disk that is ready and whose cache stands for the contents `x`.
  pub record Backed (x : ℕ → ℕ) (d : Disk S) : Type 0 where
    pub ready : Primary.check_ready d.primary ≡ done tt d.primary
    pub store : S
    pub is_cache : d.cache ≡ some store
    pub stands : K.Stands x store
    pub same_size : d.block_size ≡ size
    pub same_count : d.block_count ≡ blocks
    pub unoptimized : d.optimized ≡ false

  pub ready-check_ready : (x : ℕ → ℕ) (d : Disk S) → Backed x d → check_ready d ≡ done tt d
  unfolding check_ready
  ready-check_ready x d b =
      ap
        (λ o. elim o [
          | done a p ↦ done a (record d { primary = p })
          | thrown e p ↦ thrown e (record d { primary = p })
          | stuck ↦ stuck
        ])
        b.ready

  -- One call of ReadData.
  record OneRead (x : ℕ → ℕ) (d : Disk S) (o : Outcome ScsiException (Disk S) ℕ) : Type 0 where
    end_disk : Disk S
    is_done : o ≡ done size end_disk
    backed : Backed x end_disk
    single : end_disk.sector_transfer_count ≡ 1
    next : end_disk.next_sector ≡ d.next_sector + 1
    content : taken end_disk.buffer size ≡ taken (λ k. x (d.next_sector * size + k)) size

  module _ (positive : 0 < size) (small : size < 2 ^ 31) (fits : blocks < 2 ^ 63) (x : ℕ → ℕ) where
    sector_read :
        (d : Disk S) (e : S) (out : ℕ → ℕ)
        → Backed x d
        → K.Stands x e
        → d.sector_transfer_count ≡ 1
        → d.next_sector < blocks
        → ((k : ℕ) → k < size → out k ≡ x (d.next_sector * size + k))
        → OneRead x d (sectors_read K.ops d (some (e, out, size)))
    unfolding sectors_read
    sector_read d e out b stands one inside content = record {
      end_disk = after;
      is_done =
          ap
            (λ z.
              if z
              then thrown (medium_error Asc.read_error) (record d { cache = some e; buffer = out })
              else done (mul32 d.block_size d.sector_transfer_count) after)
            (not_== size 0 (λ z. omega (arith, z, positive)))
          ∙ ap (λ z. done z after) length_is;
      backed = record {
        ready = b.ready;
        store = e;
        is_cache = refl;
        stands = stands;
        same_size = b.same_size;
        same_count = b.same_count;
        unoptimized = b.unoptimized;
      };
      single = one;
      next = ap (λ z. add64 d.next_sector z) one ∙ mod-eq_of_lt (omega (arith, inside, fits));
      content = taken-same out (λ k. x (d.next_sector * size + k)) size content;
    }
      where
        after : Disk S
        after = record d {
          cache = some e;
          buffer = out;
          next_sector = add64 d.next_sector d.sector_transfer_count;
          sector_read_count = add64 d.sector_read_count d.sector_transfer_count;
        }

        length_is : mul32 d.block_size d.sector_transfer_count ≡ size
        length_is =
            ap (λ z. d.block_size * z % 2 ^ 32) one
            ∙ ap (λ z. z % 2 ^ 32) (mul-one d.block_size ∙ b.same_size)
            ∙ mod-eq_of_lt (omega arith)

    read_data-OneRead :
        (d : Disk S)
        → Backed x d
        → d.sector_transfer_count ≡ 1
        → d.next_sector < blocks
        → OneRead x d (read_data K.ops d)
    unfolding read_data
    read_data-OneRead d b one inside =
        let r = K.reads x b.store d.buffer d.next_sector inside b.stands in
        subst (OneRead x d)
          (sym (
            ap (λ z. if z then (check_ready >>= λ _ e. read_from K.ops e e.cache) d else stuck)
              in_bounds
            ∙ >>=-done check_ready (λ _ e. read_from K.ops e e.cache) {s = d}
                (ready-check_ready x d b)
            ∙ ap (read_from K.ops d) b.is_cache
            ∙ ap (λ z. sectors_read K.ops d (K.ops.read_sectors d.buffer d.next_sector z b.store))
                one
            ∙ ap (sectors_read K.ops d) r.2))
          (sector_read d r.0 r.1 b r.4 one inside r.3)
      where
        in_bounds : leb (add64 d.next_sector d.sector_transfer_count) d.block_count ≡ true
        in_bounds =
            ap (λ z. leb (add64 d.next_sector z) d.block_count) one
            ∙ le→leb _ d.block_count (
                omega (
                  arith,
                  inside,
                  b.same_count,
                  mod-eq_of_lt {n = d.next_sector + 1} {m = 2 ^ 64} (omega (arith, inside, fits)),
                ))

    record Collected (d : Disk S) (n : ℕ) (o : Outcome ScsiException (Disk S) (List (List ℕ)))
        : Type 0 where
      end_disk : Disk S
      is_done : o ≡ done (sectors_of size x d.next_sector n) end_disk
      backed : Backed x end_disk

    collect-Collected :
        (n : ℕ) (d : Disk S)
        → Backed x d
        → d.sector_transfer_count ≡ 1
        → d.next_sector + n ≤ blocks
        → Collected d n (collect K.ops n d)
    unfolding collect sectors_of
    collect-Collected zero d b one inside = record { end_disk = d; is_done = refl; backed = b }
    collect-Collected (suc n) d b one inside =
        let r = read_data-OneRead d b one (omega arith) in
        let rest = collect-Collected n r.end_disk r.backed r.single (omega (arith, r.next)) in
        record {
          end_disk = rest.end_disk;
          is_done =
              >>=-done (read_data K.ops)
                (λ len e. (collect K.ops n >>= λ more. pure (taken e.buffer len ∷ more)) e) {s = d}
                r.is_done
              ∙ >>=-done (collect K.ops n) (λ more. pure (taken r.end_disk.buffer size ∷ more))
                  {s = r.end_disk} rest.is_done
              ∙ ap (λ z. done (z ∷ sectors_of size x r.end_disk.next_sector n) rest.end_disk)
                  r.content
              ∙ ap
                  (λ z.
                    done (taken (λ k. x (d.next_sector * size + k)) size ∷ sectors_of size x z n)
                      rest.end_disk)
                  r.next;
          backed = rest.backed;
        }

    -- The state in which READ calls ReadData.
    abbrev started : ℕ → ℕ → Disk S → Disk S
    started start count d =
        record (set_transfer_size (mul32 count d.block_size)
          (mul32 (chunk_count d.optimized count) d.block_size) d) {
            next_sector = start;
            sector_transfer_count = chunk_count d.optimized count;
            current_length = mul32 count d.block_size;
          }

    started-Backed : (start count : ℕ) (d : Disk S) → Backed x d → Backed x (started start count d)
    started-Backed start count d b = record {
      ready = b.ready;
      store = b.store;
      is_cache = b.is_cache;
      stands = b.stands;
      same_size = b.same_size;
      same_count = b.same_count;
      unoptimized = b.unoptimized;
    }

    started-OneRead :
        (start count : ℕ) (d : Disk S)
        → Backed x d
        → start < blocks
        → OneRead x (started start count d) (read_data K.ops (started start count d))
    started-OneRead start count d b inside =
        read_data-OneRead (started start count d) (started-Backed start count d b)
          (ap (λ z. chunk_count z count) b.unoptimized) inside

    start_read-done :
        (start count : ℕ) (d e : Disk S)
        → read_data K.ops (started start count d) ≡ done size e
        → start_read K.ops (true, start, count) d ≡ done (Next.data_in size) e
    unfolding start_read
    start_read-done start count d e is_done =
        >>=-done (read_data K.ops) (λ n. pure (Next.data_in n)) {s = started start count d} is_done

-- A disk that is ready, transfers one sector at a time and has a cache that stands for the contents
-- `x`: a READ of one or more sectors within the disk asks for DATA IN with the first of them in the
-- buffer, and the calls of ReadData that follow deliver the others in order.
pub read-sectors_of :
    {size blocks : ℕ} {S : Type 0} (K : SectorCache size blocks S) (x : ℕ → ℕ) (mode : AccessMode)
    (d : Disk S)
    → 0 < size
    → size < 2 ^ 31
    → blocks < 2 ^ 63
    → Backed K x d
    → 0 < count_of mode d.cdb
    → start_of mode d.cdb + count_of mode d.cdb ≤ blocks
    → (e : Disk S) × (f : Disk S) × (read K.ops mode d ≡ done (Next.data_in size) e)
      × (taken e.buffer size ≡ taken (λ k. x (start_of mode d.cdb * size + k)) size)
      × (collect K.ops (count_of mode d.cdb - 1) e
          ≡ done (sectors_of size x (start_of mode d.cdb + 1) (count_of mode d.cdb - 1)) f)
      × Backed K x f
unfolding read
read-sectors_of {size = size} {blocks = blocks} K x mode d positive small fits b some_sectors
      inside =
    let start = start_of mode d.cdb in
    let count = count_of mode d.cdb in
    let ready = ready-check_ready K x d b in
    let r = started-OneRead K positive small fits x start count d b (omega arith) in
    let rest =
      collect-Collected K positive small fits x (count - 1) r.end_disk r.backed r.single
        (omega (arith, r.next)) in
    (
      r.end_disk,
      rest.end_disk,
      >>=-done (check_and_get_start_and_count mode) (start_read K.ops) {s = d} (
            accepted mode d ready (omega (arith, b.same_count)) (
              omega
                (arith, b.same_count, mod-eq_of_lt {n = start + count} {m = 2 ^ 64} (omega arith)))
            ∙ ap (λ z. done z d) (range_valid mode d.cdb some_sectors))
          ∙ start_read-done K positive small fits x start count d r.end_disk r.is_done,
      r.content,
      rest.is_done ∙ ap (λ z. done (sectors_of size x z (count - 1)) rest.end_disk) r.next,
      rest.backed,
    )
