-- ===== src/Disk/Backing.antt =====
-- The caches of a disk: the interface that Disk relies on, and the two classes that fill it.
use scsi2pi.Base.{
  ℕ, ◌+◌, ◌*◌, ◌^◌, ◌<◌, ◌≡◌, sym, ap, subst, Bool, true, false, arith, Option, none, some,
}
use scsi2pi.Cache.Track.{memcpy}
use scsi2pi.Cache.Disk.{DiskCache}
use scsi2pi.Cache.Disk
use scsi2pi.Cache.Loaded.{Represents, Works}
use scsi2pi.Cache.Reads.{read_sectors_works}
use scsi2pi.Cache.Writes.{write_sectors_works}
use scsi2pi.Cache.Flushed.{flush-Represents}
use scsi2pi.Cache.Linux.{LinuxCache}
use scsi2pi.Cache.Linux
use scsi2pi.Cache.Direct.{StandsFor, linux_cache-StandsFor, flush_ok}
use scsi2pi.Disk.{CacheOps}
use native.Mathlib.Nat.{one-le-pow, pow-le-pow_right}

-- shared_ptr<Cache>: either class.
pub data AnyCache : Type 0 where
  tracks : DiskCache → AnyCache
  direct : LinuxCache → AnyCache

abbrev with_tracks : {A : Type 0} → Option (DiskCache × A) → Option (AnyCache × A)
with_tracks none = none
with_tracks (some (c, a)) = some (tracks c, a)

abbrev with_direct : {A : Type 0} → Option (LinuxCache × A) → Option (AnyCache × A)
with_direct none = none
with_direct (some (c, a)) = some (direct c, a)

abbrev read_result :
    {C : Type 0} → (C → AnyCache) → Option (C × (ℕ → ℕ) × ℕ) → Option (AnyCache × (ℕ → ℕ) × ℕ)
read_result f none = none
read_result f (some (c, buf, n)) = some (f c, buf, n)

unfoldable pub any_read : (ℕ → ℕ) → ℕ → ℕ → AnyCache → Option (AnyCache × (ℕ → ℕ) × ℕ)
unfolding Disk.read_sectors Linux.read_sectors
any_read buf b n (tracks c) = read_result tracks (Disk.read_sectors buf b n c)
any_read buf b n (direct c) = read_result direct (Linux.read_sectors buf b n c)

unfoldable pub any_write : (ℕ → ℕ) → ℕ → ℕ → AnyCache → Option (AnyCache × ℕ)
unfolding Disk.write_sectors Linux.write_sectors
any_write buf b n (tracks c) = with_tracks (Disk.write_sectors buf b n c)
any_write buf b n (direct c) = with_direct (Linux.write_sectors buf b n c)

unfoldable pub any_flush : AnyCache → AnyCache × Bool
unfolding Disk.flush Linux.flush
any_flush (tracks c) = (tracks (Disk.flush c).0, (Disk.flush c).1)
any_flush (direct c) = (direct (Linux.flush c).0, (Linux.flush c).1)

unfoldable pub any_is_direct : AnyCache → Bool
any_is_direct (tracks c) = false
any_is_direct (direct c) = true

-- Disk::InitCache for the caching mode LINUX, over the same file. Its sector size and count are the
-- block size and the block count of the disk.
unfoldable pub any_to_direct : LinuxCache → Option AnyCache → AnyCache
any_to_direct new none = direct new
any_to_direct new (some (tracks c)) = direct (record {
  file = c.file;
  sector_size = 2 ^ c.shift_count;
  sectors = c.blocks;
  write_through = false;
  flush_fails = new.flush_fails;
  read_error_count = 0;
  write_error_count = 0;
})
any_to_direct new (some (direct c)) = direct c

unfoldable pub any_read_long : (ℕ → ℕ) → ℕ → ℕ → AnyCache → Option (AnyCache × (ℕ → ℕ) × ℕ)
unfolding Linux.read_long
any_read_long buf b n (tracks c) = none
any_read_long buf b n (direct c) = read_result direct (Linux.read_long buf b n c)

unfoldable pub any_write_long : (ℕ → ℕ) → ℕ → ℕ → AnyCache → Option (AnyCache × ℕ)
unfolding Linux.write_long
any_write_long buf b n (tracks c) = none
any_write_long buf b n (direct c) = with_direct (Linux.write_long buf b n c)

-- `new` is the LinuxCache of a disk that had no cache; whether flushing one that is made later fails
-- is the same.
unfoldable pub any_cache : LinuxCache → CacheOps AnyCache
unfolding any_read any_write any_flush any_is_direct any_to_direct any_read_long any_write_long
any_cache new = record {
  read_sectors = any_read;
  write_sectors = any_write;
  flush = any_flush;
  is_linux = any_is_direct;
  to_linux = any_to_direct new;
  read_long = any_read_long;
  write_long = any_write_long;
}

-- What Disk relies on, for one sector at a time: the cache stands for the contents `d` of a disk of
-- `blocks` sectors of `size` bytes.
pub record SectorCache (size blocks : ℕ) (S : Type 0) : Type 1 where
  pub ops : CacheOps S
  pub Stands : (ℕ → ℕ) → S → Type 0
  pub reads :
      (d : ℕ → ℕ) (s : S) (buf : ℕ → ℕ) (b : ℕ)
      → b < blocks
      → Stands d s
      → (e : S) × (out : ℕ → ℕ) × (ops.read_sectors buf b 1 s ≡ some (e, out, size))
        × ((k : ℕ) → k < size → out k ≡ d (b * size + k))
        × Stands d e
  pub writes :
      (d : ℕ → ℕ) (s : S) (buf : ℕ → ℕ) (b : ℕ)
      → b < blocks
      → Stands d s
      → (e : S) × (ops.write_sectors buf b 1 s ≡ some (e, size))
        × Stands (memcpy d (b * size) buf size) e
  pub flushes :
      (d : ℕ → ℕ) (s : S) → Stands d s → ((ops.flush s).1 ≡ true) × Stands d (ops.flush s).0

unfoldable pub AnyStands : (shift blocks : ℕ) (d : ℕ → ℕ) → AnyCache → Type 0
AnyStands shift blocks d (tracks c) = Represents shift blocks d c × Works c
AnyStands shift blocks d (direct c) = StandsFor (2 ^ shift) blocks d c

module _ (shift blocks : ℕ) (few : shift < 31) (new : LinuxCache) where
  size_small : 2 ^ shift < 2 ^ 31
  size_small =
      omega (arith, pow-le-pow_right {n = 2} (omega arith) {i = shift} {j = 30} (omega arith))

  pub any_reads :
      (d : ℕ → ℕ) (s : AnyCache) (buf : ℕ → ℕ) (b : ℕ)
      → b < blocks
      → AnyStands shift blocks d s
      → (e : AnyCache) × (out : ℕ → ℕ) × (any_read buf b 1 s ≡ some (e, out, 2 ^ shift))
        × ((k : ℕ) → k < 2 ^ shift → out k ≡ d (b * 2 ^ shift + k))
        × AnyStands shift blocks d e
  unfolding AnyStands any_read
  any_reads d (tracks c) buf b inside s =
      let r = read_sectors_works shift blocks d b c buf inside s.0 s.1 in
      (tracks r.0, r.1, ap (read_result tracks) r.2, r.3, (r.4, r.5))
  any_reads d (direct c) buf b inside s =
      let r =
        (linux_cache-StandsFor (2 ^ shift) blocks d c b buf (one-le-pow shift 2 (omega arith))
          size_small inside s).0 in
      (direct c, r.0, ap (read_result direct) r.1, r.2, s)

  pub any_writes :
      (d : ℕ → ℕ) (s : AnyCache) (buf : ℕ → ℕ) (b : ℕ)
      → b < blocks
      → AnyStands shift blocks d s
      → (e : AnyCache) × (any_write buf b 1 s ≡ some (e, 2 ^ shift))
        × AnyStands shift blocks (memcpy d (b * 2 ^ shift) buf (2 ^ shift)) e
  unfolding AnyStands any_write
  any_writes d (tracks c) buf b inside s =
      let r = write_sectors_works shift blocks d b c buf inside s.0 s.1 in
      (tracks r.0, ap with_tracks r.1, (r.2, r.3))
  any_writes d (direct c) buf b inside s =
      let r =
        (linux_cache-StandsFor (2 ^ shift) blocks d c b buf (one-le-pow shift 2 (omega arith))
          size_small inside s).1 in
      (direct r.0, ap with_direct r.1, r.2)

  pub any_flushes :
      (d : ℕ → ℕ) (s : AnyCache)
      → AnyStands shift blocks d s
      → ((any_flush s).1 ≡ true) × AnyStands shift blocks d (any_flush s).0
  unfolding AnyStands any_flush
  any_flushes d (tracks c) s =
      let r = flush-Represents shift blocks d c s.0 in ((r.2 s.1).0, (r.0, (r.2 s.1).1))
  any_flushes d (direct c) s = (
    ap (λ r. r.1) (flush_ok c s.flushes),
    subst (λ x. StandsFor (2 ^ shift) blocks d x) (sym (ap (λ r. r.0) (flush_ok c s.flushes))) s,
  )

  -- Both classes do what Disk relies on.
  unfoldable pub backing : SectorCache (2 ^ shift) blocks AnyCache
  unfolding any_cache
  backing = record {
    ops = any_cache new;
    Stands = AnyStands shift blocks;
    reads = any_reads;
    writes = any_writes;
    flushes = any_flushes;
  }
