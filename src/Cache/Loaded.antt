-- ===== src/Cache/Loaded.antt =====
-- DiskCache::Load and DiskTrack::Save on a slot of the cache.
use scsi2pi.Base.{
  ℕ, ◌+◌, ◌*◌, ◌^◌, ◌<◌, ◌≤◌, mul_le, ◌≡◌, ◌≢◌, ◌⊎◌, ◌==◌, ==_iff, inl, inr, refl, sym, ap, subst,
  ◌∙◌, Bool, Bool-cases, if◌then◌else◌, true, false, arith, Option, none, some, not_leb, le→leb,
  block_inside,
}
use mathlib.Core.Path.{fun_ext}
use scsi2pi.File.{ImageFile, IsSound, can_read}
use scsi2pi.Cache.Track.{DiskTrack, init_track, filled, load_track}
use scsi2pi.Cache.Track.Copied.{memcpy_inside, load_track_fine, load_track_fails}
use scsi2pi.Cache.Disk.{
  CacheData, DiskCache, Assigned, failed, found, cache_max, track_sectors, put, set_serial,
  set_track, load, loaded, from_option,
}
use scsi2pi.Cache.Holds.{Holds, HoldsTrack, Clean, with_track, with_track_here}
use scsi2pi.Cache.Kept.{insert-Holds, track_sectors_few}
use scsi2pi.Cache.Changed.{track_sectors_end}

abbrev pub tracks_of : DiskCache → ℕ → Option DiskTrack
tracks_of c i = (c.cache i).disktrk

pub set_track-tracks_of :
    (i : ℕ) (o : Option DiskTrack) (c : DiskCache)
    → tracks_of (set_track i o c) ≡ with_track i o (tracks_of c)
unfolding put with_track
set_track-tracks_of i o c = fun_ext (λ j. disktrk-if _ _ (j == i))
  where
    disktrk-if :
        (x y : CacheData) (b : Bool)
        → (if b then x else y).disktrk ≡ (if b then x.disktrk else y.disktrk)
    disktrk-if x y true = refl
    disktrk-if x y false = refl

pub set_serial-tracks_of : (i : ℕ) (c : DiskCache) → tracks_of (set_serial i c) ≡ tracks_of c
unfolding put
set_serial-tracks_of i c = fun_ext (λ j. at_slot j)
  where
    at_slot : (j : ℕ) → tracks_of (set_serial i c) j ≡ tracks_of c j
    at_slot j = elim (Bool-cases (j == i)) [
      | inl here ↦ rw (here, tracks_of, put) (ap (tracks_of c) (sym ((==_iff j i).0 here)))
      | inr away ↦ rw (away, tracks_of, put) refl
    ]

-- The cache stands for a disk of `blocks` sectors with the contents `d`. A part of this is that no
-- write that the stream accepts is lost when the stream is closed (Holds.durable).
pub record Represents (shift blocks : ℕ) (d : ℕ → ℕ) (c : DiskCache) : Type 0 where
  pub same_shift : c.shift_count ≡ shift
  pub same_blocks : c.blocks ≡ blocks
  pub holds : Holds shift blocks (tracks_of c) c.file d

-- The system refuses no access to the image file.
pub record Works (c : DiskCache) : Type 0 where
  pub sound : IsSound c.file
  pub input : c.opens_input ≡ true
  pub output : c.opens_output ≡ true

-- No slot holds the track.
abbrev pub Absent : ℕ → (ℕ → Option DiskTrack) → Type 0
Absent track tracks =
    (j : ℕ) (u : DiskTrack) → j < cache_max → tracks j ≡ some u → u.track_number ≢ track

module _ (shift blocks : ℕ) (tracks : ℕ → Option DiskTrack) (f : ImageFile) (d : ℕ → ℕ)
    (h : Holds shift blocks tracks f d) (track : ℕ) (p : DiskTrack) where
  abbrev fresh : ℕ → ℕ → DiskTrack
  fresh s n = init_track track s (track_sectors n track) p

  Clean-Absent :
      (b : ℕ) (n : ℕ) → n < 256 → b ≡ track * 256 + n → Absent track tracks → Clean tracks b
  Clean-Absent b n l at_b none_has i j t m is_t k at_t = absurd (none_has i t m is_t (omega arith))

  filled-HoldsTrack :
      Absent track tracks
      → track * 256 < blocks
      → HoldsTrack shift blocks d (filled f (fresh shift blocks))
  filled-HoldsTrack none_has starts = record {
    shift = refl;
    initialized = refl;
    starts = starts;
    sectors = refl;
    unmodified = λ e j. refl;
    content = λ j k l m.
        memcpy_inside p.buffer (λ i. f.at (track * 256 * 2 ^ shift + i)) 0
          (track_sectors blocks track * 2 ^ shift) (j * 2 ^ shift + k) (omega arith)
          (omega (arith, block_inside (2 ^ shift) l m))
        ∙ (ap f.at (omega arith)
            ∙ h.clean (track * 256 + j) k (track_sectors_end blocks track j l) m
                (Clean-Absent _ j (track_sectors_few blocks track j l) refl none_has));
  }

-- The outcomes of an attempt to put a track into the slot `i` of the cache `c`.
pub record Refused (shift blocks : ℕ) (d : ℕ → ℕ) (c : DiskCache) (o : Assigned) : Type 0 where
  pub end_cache : DiskCache
  pub is_failed : o ≡ failed end_cache
  pub represents : Represents shift blocks d end_cache
  pub same_tracks : tracks_of end_cache ≡ tracks_of c
  pub broken : ¬ Works c
  pub same_input : end_cache.opens_input ≡ c.opens_input

pub record Entered (shift blocks : ℕ) (d : ℕ → ℕ) (track i : ℕ) (c : DiskCache) (o : Assigned)
    : Type 0 where
  pub end_cache : DiskCache
  pub disktrk : DiskTrack
  pub is_found : o ≡ found end_cache i
  pub represents : Represents shift blocks d end_cache
  pub entered : tracks_of end_cache i ≡ some disktrk
  pub number : disktrk.track_number ≡ track
  pub still_works : Works c → Works end_cache

module _ (shift blocks : ℕ) (d : ℕ → ℕ) (c : DiskCache) (r : Represents shift blocks d c)
    (track : ℕ) (absent : Absent track (tracks_of c)) (starts : track * 256 < blocks) (i : ℕ)
    (i_max : i < cache_max) (empty : tracks_of c i ≡ none) (passed : Option DiskTrack) where
  abbrev fresh_track : DiskTrack
  fresh_track = init_track track c.shift_count (track_sectors c.blocks track) (from_option passed)

  load-loaded :
      load i track passed c
      ≡ loaded i c (load_track c.file c.opens_input fresh_track c.cache_miss_read_count)
  unfolding load
  load-loaded =
      rw
        (
          empty,
          not_leb c.blocks (track * 256) (subst (λ x. track * 256 < x) (sym r.same_blocks) starts),
        )
        refl

  entered_track : HoldsTrack shift blocks d (filled c.file fresh_track)
  entered_track =
      subst
        (λ s.
          HoldsTrack shift blocks d (
            filled c.file (init_track track s (track_sectors c.blocks track) (from_option passed))))
        (sym r.same_shift)
        (subst
          (λ n.
            HoldsTrack shift blocks d
              (filled c.file (init_track track shift (track_sectors n track) (from_option passed))))
          (sym r.same_blocks)
          (filled-HoldsTrack shift blocks (tracks_of c) c.file d r.holds track (from_option passed)
            absent starts))

  abbrev entered_cache : DiskCache
  entered_cache =
      set_track i (some (filled c.file fresh_track))
        (record c { cache_miss_read_count = c.cache_miss_read_count + 1 })

  readable :
      IsSound c.file
      → can_read c.file
          (track * 256 * 2 ^ c.shift_count)
          (track_sectors c.blocks track * 2 ^ c.shift_count)
        ≡ true
  readable sound =
      subst
        (λ n. can_read c.file (track * 256 * 2 ^ n) (track_sectors c.blocks track * 2 ^ n) ≡ true)
        (sym r.same_shift)
        (subst
          (λ n.
            can_read c.file (track * 256 * 2 ^ shift) (track_sectors n track * 2 ^ shift) ≡ true)
          (sym r.same_blocks)
          (rw
            (
              le→leb (track * 256 * 2 ^ shift + track_sectors blocks track * 2 ^ shift) c.file.size
                  (omega (arith, inside, r.holds.fits, mul_le (2 ^ shift) inside)),
              sound.reads,
            )
            refl))
    where
      inside : track * 256 + track_sectors blocks track ≤ blocks
      inside = ground arith

  miss : DiskCache
  miss = record c {
    cache_miss_read_count = c.cache_miss_read_count + 1;
    read_error_count = c.read_error_count + 1;
  }

  miss-Represents : Represents shift blocks d miss
  unfolding miss
  miss-Represents = record {
    same_shift = r.same_shift;
    same_blocks = r.same_blocks;
    holds = r.holds;
  }

  pub refusal :
      (c.opens_input ≡ false)
        ⊎ (can_read c.file
              (track * 256 * 2 ^ c.shift_count)
              (track_sectors c.blocks track * 2 ^ c.shift_count)
            ≡ false)
      → Refused shift blocks d c (load i track passed c)
  unfolding miss
  refusal why = record {
    end_cache = miss;
    is_failed =
        load-loaded
        ∙ ap (loaded i c)
            (load_track_fails c.file c.opens_input fresh_track c.cache_miss_read_count refl why);
    represents = miss-Represents;
    same_tracks = refl;
    same_input = refl;
    broken = λ w. elim why [
      | inl closed ↦ ground (arith, w.input, closed)
      | inr unreadable ↦ ground (arith, readable w.sound, unreadable)
    ];
  }

  tracks_then :
      tracks_of entered_cache ≡ with_track i (some (filled c.file fresh_track)) (tracks_of c)
  tracks_then =
      set_track-tracks_of i (some (filled c.file fresh_track))
        (record c { cache_miss_read_count = c.cache_miss_read_count + 1 })

  success :
      c.opens_input ≡ true
      → can_read c.file
          (track * 256 * 2 ^ c.shift_count)
          (track_sectors c.blocks track * 2 ^ c.shift_count)
        ≡ true
      → Entered shift blocks d track i c (load i track passed c)
  success opened fine = record {
    end_cache = entered_cache;
    disktrk = filled c.file fresh_track;
    is_found =
        load-loaded
        ∙ ap (loaded i c) (
            load_track_fine c.file c.opens_input fresh_track c.cache_miss_read_count refl opened
              fine);
    represents = record {
      same_shift = r.same_shift;
      same_blocks = r.same_blocks;
      holds =
          subst (λ ts. Holds shift blocks ts c.file d) (sym tracks_then)
            (insert-Holds shift blocks i (tracks_of c) c.file d r.holds (filled c.file fresh_track)
              empty entered_track absent);
    };
    entered =
        ap (λ ts. ts i) tracks_then
        ∙ with_track_here i (some (filled c.file fresh_track)) (tracks_of c);
    number = refl;
    still_works = λ w. record { sound = w.sound; input = w.input; output = w.output };
  }

  pub load-outcome :
      Refused shift blocks d c (load i track passed c)
      ⊎ Entered shift blocks d track i c (load i track passed c)
  load-outcome = elim (Bool-cases c.opens_input) [
    | inr closed ↦ inl (refusal (inl closed))
    | inl opened ↦
        elim (Bool-cases (
          can_read c.file (track * 256 * 2 ^ c.shift_count)
            (track_sectors c.blocks track * 2 ^ c.shift_count))) [
              | inr unreadable ↦ inl (refusal (inr unreadable))
              | inl fine ↦ inr (success opened fine)
            ]
  ]
