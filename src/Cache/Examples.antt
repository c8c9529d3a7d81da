-- ===== src/Cache/Examples.antt =====
-- A cache of an image file with two sectors of 256 bytes.
use scsi2pi.Base.{
  ◌≢◌, ap, subst, sym, ◌∙◌, false, ℕ, ◌+◌, ◌*◌, ◌%◌, ◌^◌, ◌<◌, ◌≤◌, ◌≡◌, refl, arith, true, false,
  none, some, List, [], ◌∷◌,
}
use scsi2pi.File.{ImageFile}
use scsi2pi.Cache.Disk.{
  DiskCache, fresh_cache, new_cache, find_shift, with_shift, cache_max, assign_track, found,
  read_sectors, write_sectors, flush,
}
use scsi2pi.Cache.Changed.{with_sector}
use scsi2pi.Cache.Loaded.{Represents, Works, Absent, tracks_of}
use scsi2pi.Cache.Replaced.{assign_track-least}
use mathlib.Core.Option.{some-injective}
use scsi2pi.Cache.Track.{DiskTrack}
use scsi2pi.Cache.Holds.{HoldsTrack}
use scsi2pi.Cache.Reads.{ReadBack, read_sectors-ReadBack, read_sectors_works}
use scsi2pi.Cache.Writes.{WroteBack, write_sectors-WroteBack, write_sectors_works}
use scsi2pi.Cache.Flushed.{flush-Represents}
use scsi2pi.Cache.Run.{
  Request, read, write, flush_all, run, disk_run, run-disk_run, new_cache-Represents, AllInRange,
  InRange,
}
use scsi2pi.Cache.Crashes.{read_sectors_crashes}

abbrev pub image : ImageFile
image = record {
  size = 512;
  at = λ i. i % 251;
  read_error = λ o n. false;
  write_error = λ o n. false;
  write_lost = λ o n. false;
}

abbrev pub two_sectors : DiskCache
two_sectors = fresh_cache image true true 2 8

created : new_cache image true true 256 2 ≡ some two_sectors
unfolding new_cache find_shift with_shift
created = refl

new_cache-Represents_example :
    (2 ^ two_sectors.shift_count ≡ 256) × Represents two_sectors.shift_count 2 image.at two_sectors
new_cache-Represents_example =
    new_cache-Represents image true true 256 2 two_sectors created (omega arith) (λ o n. refl)

pub two_sectors-Represents : Represents 8 2 image.at two_sectors
two_sectors-Represents =
    (new_cache-Represents image true true 256 2 two_sectors created (omega arith) (λ o n. refl)).1

pub two_sectors-Works : Works two_sectors
two_sectors-Works = record {
  sound = record { reads = λ o n. refl; writes = λ o n. refl };
  input = refl;
  output = refl;
}

first_read :
    (e : DiskCache) × (out : ℕ → ℕ) × (read_sectors (λ k. 0) 1 1 two_sectors ≡ some (e, out, 2 ^ 8))
    × ((k : ℕ) → k < 2 ^ 8 → out k ≡ image.at (1 * 2 ^ 8 + k))
    × Represents 8 2 image.at e
    × Works e
first_read =
    read_sectors_works 8 2 image.at 1 two_sectors (λ k. 0) (omega arith) two_sectors-Represents
      two_sectors-Works

read_sectors_works_example :
    (e : DiskCache) × (out : ℕ → ℕ) × (read_sectors (λ k. 0) 1 1 two_sectors ≡ some (e, out, 2 ^ 8))
    × ((k : ℕ) → k < 2 ^ 8 → out k ≡ image.at (1 * 2 ^ 8 + k))
    × Represents 8 2 image.at e
    × Works e
read_sectors_works_example =
    read_sectors_works 8 2 image.at 1 two_sectors (λ k. 0) (omega arith) two_sectors-Represents
      two_sectors-Works

read_sectors-ReadBack_example : ReadBack 8 2 image.at 1 first_read.0 first_read.1 (2 ^ 8)
read_sectors-ReadBack_example =
    read_sectors-ReadBack 8 2 image.at 1 two_sectors first_read.0 (λ k. 0) first_read.1 (2 ^ 8)
      (omega arith) two_sectors-Represents first_read.2

first_write :
    (e : DiskCache) × (write_sectors (λ k. 7) 1 1 two_sectors ≡ some (e, 2 ^ 8))
    × Represents 8 2 (with_sector 8 1 (λ k. 7) image.at) e
    × Works e
first_write =
    write_sectors_works 8 2 image.at 1 two_sectors (λ k. 7) (omega arith) two_sectors-Represents
      two_sectors-Works

write_sectors_works_example :
    (e : DiskCache) × (write_sectors (λ k. 7) 1 1 two_sectors ≡ some (e, 2 ^ 8))
    × Represents 8 2 (with_sector 8 1 (λ k. 7) image.at) e
    × Works e
write_sectors_works_example =
    write_sectors_works 8 2 image.at 1 two_sectors (λ k. 7) (omega arith) two_sectors-Represents
      two_sectors-Works

write_sectors-WroteBack_example : WroteBack 8 2 image.at 1 (λ k. 7) first_write.0 (2 ^ 8)
write_sectors-WroteBack_example =
    write_sectors-WroteBack 8 2 image.at 1 two_sectors first_write.0 (λ k. 7) (2 ^ 8) (omega arith)
      two_sectors-Represents first_write.1

flush-Represents_example :
    Represents 8 2 (with_sector 8 1 (λ k. 7) image.at) (flush first_write.0).0
    × ((flush first_write.0).1 ≡ true
        → (b k : ℕ) → b < 2
        → k < 2 ^ 8
        → (flush first_write.0).0.file.at (b * 2 ^ 8 + k)
          ≡ with_sector 8 1 (λ k. 7) image.at (b * 2 ^ 8 + k))
    × (Works first_write.0 → ((flush first_write.0).1 ≡ true) × Works (flush first_write.0).0)
flush-Represents_example =
    flush-Represents 8 2 (with_sector 8 1 (λ k. 7) image.at) first_write.0 first_write.2

abbrev requests : List Request
requests = write 1 (λ k. 7) ∷ read 0 ∷ flush_all ∷ read 1 ∷ []

requests-AllInRange : AllInRange 8 2 requests
unfolding AllInRange InRange
requests-AllInRange = (omega arith, (omega arith, (tt, (omega arith, tt))))

run-disk_run_example :
    (e : DiskCache) × (run requests two_sectors ≡ some (e, (disk_run 8 requests image.at).1))
    × Represents 8 2 (disk_run 8 requests image.at).0 e
    × Works e
run-disk_run_example =
    run-disk_run 8 2 requests image.at two_sectors requests-AllInRange two_sectors-Represents
      two_sectors-Works

-- A disk of 17 tracks, 16 of which are in memory. The slot 5 has the smallest serial number.
abbrev large_image : ImageFile
large_image = record image { size = 1114112 }

abbrev track_at : ℕ → DiskTrack
track_at i = record {
  track_number = i;
  shift_count = 8;
  sector_count = 256;
  buffer = λ p. large_image.at (i * 65536 + p);
  is_initialized = true;
  is_modified = false;
  modified_flags = λ j. false;
}

abbrev full_cache : DiskCache
full_cache = record (fresh_cache large_image true true 4352 8) {
  cache = λ i. record { disktrk = some (track_at i); serial = (i + 11) % 16 };
  serial = 16;
}

track_at-HoldsTrack : (i : ℕ) → i < 16 → HoldsTrack 8 4352 large_image.at (track_at i)
track_at-HoldsTrack i l = record {
  shift = refl;
  initialized = refl;
  starts = omega arith;
  sectors = ground arith;
  unmodified = λ e j. refl;
  content = λ j k m n. ap large_image.at (omega arith);
}

same_number : (i : ℕ) (t : DiskTrack) → tracks_of full_cache i ≡ some t → i ≡ t.track_number
same_number i t e = ap (λ x. x.track_number) (some-injective (track_at i) t e)

full_cache-Represents : Represents 8 4352 large_image.at full_cache
full_cache-Represents = record {
  same_shift = refl;
  same_blocks = refl;
  holds = record {
    fits = omega arith;
    durable = λ o n. refl;
    cached = λ i t l e.
        subst (HoldsTrack 8 4352 large_image.at) (some-injective (track_at i) t e)
          (track_at-HoldsTrack i l);
    unique = λ i j t u l m is_t is_u same. same_number i t is_t ∙ same ∙ sym (same_number j u is_u);
    clean = λ b k l m c. refl;
  };
}

full_cache-Works : Works full_cache
full_cache-Works = record {
  sound = record { reads = λ o n. refl; writes = λ o n. refl };
  input = refl;
  output = refl;
}

full_cache-Absent : Absent 16 (tracks_of full_cache)
full_cache-Absent j u l e same = absurd (omega (arith, same_number j u e, same, l))

assign_track-least_example :
    (e : DiskCache) × (i : ℕ) × (t : DiskTrack) × (assign_track 16 full_cache ≡ found e i)
    × (i < cache_max)
    × ((j : ℕ) → j < cache_max → (full_cache.cache i).serial ≤ (full_cache.cache j).serial)
    × (tracks_of e i ≡ some t)
    × (t.track_number ≡ 16)
    × ((e.cache i).serial ≡ 16)
    × ((j : ℕ) → j ≢ i → e.cache j ≡ full_cache.cache j)
assign_track-least_example =
    assign_track-least 8 4352 large_image.at 16 full_cache (omega arith) full_cache-Represents
      full_cache-Works full_cache-Absent (λ i l e. ground (arith, e))

abbrev unreadable : DiskCache
unreadable = fresh_cache image false true 2 8

unreadable_created : new_cache image false true 256 2 ≡ some unreadable
unfolding new_cache find_shift with_shift
unreadable_created = refl

read_sectors_crashes_example : read_sectors (λ k. 0) 0 1 unreadable ≡ none
read_sectors_crashes_example =
    read_sectors_crashes 8 2 image.at 0 unreadable (λ k. 0) (omega arith)
      (new_cache-Represents image false true 256 2 unreadable unreadable_created (omega arith)
        (λ o n. refl)).1
      (λ i l. refl) refl
