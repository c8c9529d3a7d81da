-- ===== src/Disk/Examples.antt =====
-- A disk of two sectors of 256 bytes, with either cache.
use scsi2pi.Base.{
  ℕ, ◌+◌, ◌-◌, ◌*◌, ◌<◌, ◌≤◌, ◌≡◌, ◌⊎◌, refl, arith, true, false, some, List, [], ◌∷◌, set,
  replicate, done, thrown,
}
use scsi2pi.Device
use scsi2pi.Primary.{Primary}
use scsi2pi.Primary
use scsi2pi.Primary.Examples.{at_filemark}
use scsi2pi.Cache.Track.{memcpy}
use scsi2pi.Cache.Linux.{LinuxCache, read_sectors, write_sectors, flush}
use scsi2pi.Cache.Direct.{StandsFor, linux_cache-StandsFor}
use scsi2pi.Cache.Run.{taken}
use scsi2pi.Cache.Examples.{image, two_sectors, two_sectors-Represents, two_sectors-Works}
use scsi2pi.Disk.{
  Disk, AccessMode, Next, check_ready, check_and_get_start_and_count, start_of, count_of,
  lba_out_of_range,
}
use scsi2pi.Disk.Access.{read, write, seek}
use scsi2pi.Disk.Ranges.{
  range_of, range_checked, wrapped_range_accepted, seek_6_refuses, seek_10_accepts,
}
use scsi2pi.Disk.Capacity.{read_capacity_10, minimum}
use scsi2pi.Disk.Sizes.{number_at, read_capacity_10-number_at}
use scsi2pi.Disk.Backing.{AnyCache, tracks, any_cache, AnyStands, backing, SectorCache}
use scsi2pi.Disk.Reading.{Backed, collect, sectors_of, read-sectors_of}
use scsi2pi.Disk.Writing.{store, overwritten, write-overwritten}

abbrev linux : LinuxCache
linux = record {
  file = image;
  sector_size = 256;
  sectors = 2;
  write_through = true;
  flush_fails = false;
  read_error_count = 0;
  write_error_count = 0;
}

linux-StandsFor : StandsFor 256 2 image.at linux
linux-StandsFor = record {
  same_size = refl;
  same_sectors = refl;
  fits = omega arith;
  small = omega arith;
  sound = record { reads = λ o n. refl; writes = λ o n. refl };
  flushes = refl;
  content = λ b k l m. refl;
}

linux_cache-StandsFor_example :
    ((out : ℕ → ℕ) × (read_sectors (λ k. 0) 1 1 linux ≡ some (linux, out, 256))
      × ((k : ℕ) → k < 256 → out k ≡ image.at (1 * 256 + k)))
    × ((e : LinuxCache) × (write_sectors (λ k. 0) 1 1 linux ≡ some (e, 256))
        × StandsFor 256 2 (memcpy image.at (1 * 256) (λ k. 0) 256) e)
    × (flush linux ≡ (linux, true))
linux_cache-StandsFor_example =
    linux_cache-StandsFor 256 2 image.at linux 1 (λ k. 0) (omega arith) (omega arith) (omega arith)
      linux-StandsFor

abbrev blank : List ℕ
blank = replicate 16 0

abbrev disk : List ℕ → Disk AnyCache
disk cdb = record {
  primary = record at_filemark {
    device = record Device.initial {
      ready = true;
      reset = false;
      attn = false;
      write_protected = false;
    };
  };
  cdb = cdb;
  block_size = 256;
  block_count = 2;
  optimized = false;
  cache = some (tracks two_sectors);
  next_sector = 0;
  sector_transfer_count = 0;
  sector_read_count = 0;
  sector_write_count = 0;
  buffer = λ k. 0;
  remaining_length = 0;
  chunk_size = 0;
  current_length = 0;
}

ready : (cdb : List ℕ) → check_ready (disk cdb) ≡ done tt (disk cdb)
unfolding check_ready
ready cdb = refl

abbrev cache : SectorCache 256 2 AnyCache
cache = backing 8 2 (omega arith) linux

disk-Backed : (cdb : List ℕ) → Backed cache image.at (disk cdb)
unfolding AnyStands Primary.check_ready backing
disk-Backed cdb = record {
  ready = refl;
  store = tracks two_sectors;
  is_cache = refl;
  stands = (two_sectors-Represents, two_sectors-Works);
  same_size = refl;
  same_count = refl;
  unoptimized = refl;
}

-- Both sectors.
abbrev both : List ℕ
both = set blank 8 2

read-sectors_of_example :
    (e : Disk AnyCache) × (f : Disk AnyCache) × (read (any_cache linux) AccessMode.rw10 (disk both)
      ≡ done (Next.data_in 256) e)
    × (taken e.buffer 256 ≡ taken (λ k. image.at (start_of AccessMode.rw10 both * 256 + k)) 256)
    × (collect (any_cache linux) (count_of AccessMode.rw10 both - 1) e
        ≡ done
            (sectors_of 256 image.at
              (start_of AccessMode.rw10 both + 1)
              (count_of AccessMode.rw10 both - 1))
            f)
    × Backed cache image.at f
unfolding start_of count_of any_cache backing
read-sectors_of_example =
    read-sectors_of cache image.at AccessMode.rw10 (disk both) (omega arith) (omega arith)
      (omega arith) (disk-Backed both) (omega arith) (omega arith)

abbrev sevens : List (ℕ → ℕ)
sevens = (λ k. 7) ∷ (λ k. 7) ∷ []

write-overwritten_example :
    (e : Disk AnyCache) × (f : Disk AnyCache) × (write (any_cache linux) AccessMode.rw10 (disk both)
      ≡ done (Next.data_out 256) e)
    × (store (any_cache linux) 0x2a 256 sevens e ≡ done tt f)
    × Backed cache (overwritten 256 image.at (start_of AccessMode.rw10 both) sevens) f
unfolding start_of count_of any_cache backing
write-overwritten_example =
    write-overwritten cache image.at AccessMode.rw10 0x2a (disk both) sevens (omega arith)
      (omega arith) (omega arith) (record { no_long = refl; no_verify = refl }) (disk-Backed both)
      refl (omega arith) (omega arith) refl

range_checked_example :
    ((check_and_get_start_and_count AccessMode.rw10 (disk both)
        ≡ done (range_of AccessMode.rw10 both) (disk both))
      × (0 < (disk both).block_count)
      × (start_of AccessMode.rw10 both + count_of AccessMode.rw10 both ≤ (disk both).block_count))
    ⊎ ((check_and_get_start_and_count AccessMode.rw10 (disk both)
          ≡ thrown lba_out_of_range (disk both))
        × (((disk both).block_count ≡ 0)
            ⊎ ((disk both).block_count
                < start_of AccessMode.rw10 both + count_of AccessMode.rw10 both)))
unfolding start_of count_of
range_checked_example = range_checked AccessMode.rw10 (disk both) (ready both) (omega arith)

-- One sector from 2 ^ 64 - 1 on.
abbrev last_possible : List ℕ
last_possible =
    0x88 ∷ 0 ∷ 255 ∷ 255 ∷ 255 ∷ 255 ∷ 255 ∷ 255 ∷ 255 ∷ 255 ∷ 0 ∷ 0 ∷ 0 ∷ 1 ∷ 0 ∷ 0 ∷ []

wrapped_range_accepted_example :
    check_and_get_start_and_count AccessMode.rw16 (disk last_possible)
    ≡ done (range_of AccessMode.rw16 last_possible) (disk last_possible)
unfolding start_of count_of
wrapped_range_accepted_example =
    wrapped_range_accepted (disk last_possible) (ready last_possible) (omega arith) (omega arith)
      (omega arith) (omega arith)

seek_6_refuses_example :
    seek (any_cache linux) AccessMode.seek6 (disk (set blank 3 1))
    ≡ thrown lba_out_of_range (disk (set blank 3 1))
unfolding start_of
seek_6_refuses_example =
    seek_6_refuses (any_cache linux) (disk (set blank 3 1)) (ready (set blank 3 1)) refl
      (omega arith) (omega arith) (omega arith)

seek_10_accepts_example :
    seek (any_cache linux) AccessMode.seek10 (disk (set blank 5 2))
    ≡ done Next.status (disk (set blank 5 2))
unfolding start_of
seek_10_accepts_example =
    seek_10_accepts (any_cache linux) (disk (set blank 5 2)) (ready (set blank 5 2)) (omega arith)
      refl (omega arith)

read_capacity_10-number_at_example :
    (e : Disk AnyCache) × (read_capacity_10 (disk blank) ≡ done (Next.data_in 8) e)
    × (number_at e.buffer 0 ≡ minimum (2 - 1) 0xffffffff)
    × (number_at e.buffer 4 ≡ 256)
read_capacity_10-number_at_example =
    read_capacity_10-number_at (disk blank) (ready blank) (omega arith) (omega arith)
