-- ===== src/Cache/Stored.antt =====
-- DiskTrack::Save on a slot of the cache.
use scsi2pi.Base.{
  ℕ, ◌+◌, ◌<◌, ◌≡◌, inl, inr, refl, sym, ap, subst, ◌∙◌, Bool, Bool-cases, true, false, arith,
  Option, some, eq-cases,
}
use mathlib.Core.Path.{fun_ext}
use scsi2pi.File.{ImageFile}
use scsi2pi.Cache.Track.{DiskTrack, save_track, save_from, saved_track}
use scsi2pi.Cache.Track.Saved.{SavedFrom, save_from-SavedFrom, save_from_succeeds}
use scsi2pi.Cache.Disk.{DiskCache, cache_max, set_track, save, saved}
use scsi2pi.Cache.Holds.{Holds, HoldsTrack, with_track, with_track_here, with_track_away}
use scsi2pi.Cache.Kept.{save-Holds, save_failed-Holds}
use scsi2pi.Cache.Loaded.{Represents, Works, tracks_of, set_track-tracks_of}

-- A track put back where it is.
pub with_track_same :
    (i : ℕ) (t : DiskTrack) (tracks : ℕ → Option DiskTrack)
    → tracks i ≡ some t
    → with_track i (some t) tracks ≡ tracks
with_track_same i t tracks is_t = fun_ext (λ j. elim (eq-cases j i) [
  | inl here ↦
      subst (λ x. with_track i (some t) tracks x ≡ tracks x) (sym here)
        (with_track_here i (some t) tracks ∙ sym is_t)
  | inr away ↦ with_track_away i (some t) tracks j away
])

-- What saving the track `t` of the slot `i` leads to.
pub record Stored (shift blocks : ℕ) (d : ℕ → ℕ) (i : ℕ) (t : DiskTrack) (c e : DiskCache)
    (ok : Bool) : Type 0 where
  pub after : DiskTrack
  pub represents : Represents shift blocks d e
  pub tracks_after : tracks_of e ≡ with_track i (some after) (tracks_of c)
  pub number : after.track_number ≡ t.track_number
  pub unmarked : ok ≡ true → (j : ℕ) → after.modified_flags j ≡ false
  pub works : Works c → (ok ≡ true) × Works e

module _ (shift blocks : ℕ) (d : ℕ → ℕ) (c : DiskCache) (r : Represents shift blocks d c) (i : ℕ)
    (i_max : i < cache_max) (t : DiskTrack) (is_t : tracks_of c i ≡ some t) where
  -- With the file `g`, and the track `u` for `t`.
  abbrev stored : ImageFile → DiskTrack → ℕ → DiskCache
  stored g u misses = set_track i (some u) (record c { file = g; cache_miss_write_count = misses })

  stored-Represents :
      (g : ImageFile) (u : DiskTrack) (misses : ℕ)
      → Holds shift blocks (with_track i (some u) (tracks_of c)) g d
      → Represents shift blocks d (stored g u misses)
  stored-Represents g u misses h = record {
    same_shift = r.same_shift;
    same_blocks = r.same_blocks;
    holds =
        subst (λ ts. Holds shift blocks ts g d)
          (sym (
            set_track-tracks_of i (some u)
              (record c { file = g; cache_miss_write_count = misses })))
          h;
  }

  -- The track stays as it is.
  same_Holds :
      (g : ImageFile)
      → Holds shift blocks (tracks_of c) g d
      → Holds shift blocks (with_track i (some t) (tracks_of c)) g d
  same_Holds g h =
      subst (λ ts. Holds shift blocks ts g d) (sym (with_track_same i t (tracks_of c) is_t)) h

  outcome :
      (g : ImageFile) (u : DiskTrack) (misses : ℕ) (ok : Bool)
      → save_track c.file c.opens_output t c.cache_miss_write_count ≡ (g, u, ok, misses)
      → Stored shift blocks d i t c (stored g u misses) ok
      → Stored shift blocks d i t c (save i t c).0 (save i t c).1
  unfolding save
  outcome g u misses ok e result =
      subst (λ p. Stored shift blocks d i t c p.0 p.1) (sym (ap (saved i c) e)) result

  stays :
      (g : ImageFile) (misses : ℕ) (ok : Bool)
      → Holds shift blocks (tracks_of c) g d
      → (ok ≡ true → (j : ℕ) → t.modified_flags j ≡ false)
      → (Works c → (ok ≡ true) × Works (stored g t misses))
      → Stored shift blocks d i t c (stored g t misses) ok
  stays g misses ok h marks works = record {
    after = t;
    represents = stored-Represents g t misses (same_Holds g h);
    tracks_after =
        set_track-tracks_of i (some t) (record c { file = g; cache_miss_write_count = misses });
    number = refl;
    unmarked = marks;
    works = works;
  }

  end_file : ImageFile
  end_file = (save_from t t.sector_count 0 c.file).0

  end_ok : Bool
  end_ok = (save_from t t.sector_count 0 c.file).1

  all_saved : SavedFrom t 0 c.file end_file end_ok
  unfolding end_file end_ok
  all_saved = save_from-SavedFrom t t.sector_count 0 c.file r.holds.durable

  part : HoldsTrack shift blocks d t
  part = r.holds.cached i t i_max is_t

  still_works : (u : DiskTrack) (misses : ℕ) → Works c → Works (stored end_file u misses)
  still_works u misses w = record {
    sound = record {
      reads = λ o n. ap (λ x. x o n) (sym all_saved.keeps_errors.0) ∙ w.sound.reads o n;
      writes = λ o n. ap (λ x. x o n) (sym all_saved.keeps_errors.1) ∙ w.sound.writes o n;
    };
    input = w.input;
    output = w.output;
  }

  succeeds : Works c → end_ok ≡ true
  unfolding end_ok
  succeeds w =
      save_from_succeeds t t.sector_count 0 c.file w.sound.writes r.holds.durable (omega arith)

  pub save-Stored : Stored shift blocks d i t c (save i t c).0 (save i t c).1
  unfolding save_track end_file end_ok
  save-Stored = elim (Bool-cases t.is_modified) [
    | inr clean ↦
        outcome c.file t c.cache_miss_write_count true
          (rw (part.initialized, clean, save_track) refl)
          (stays c.file c.cache_miss_write_count true r.holds (λ e. part.unmodified clean)
            (λ w. (refl, record { sound = w.sound; input = w.input; output = w.output })))
    | inl modified ↦ elim (Bool-cases c.opens_output) [
      | inr closed ↦
          outcome c.file t (c.cache_miss_write_count + 1) false
            (rw (part.initialized, modified, closed, save_track) refl)
            (stays c.file (c.cache_miss_write_count + 1) false r.holds (λ e. ground arith)
              (λ w. ground (arith, w.output, closed)))
      | inl opened ↦ elim (Bool-cases end_ok) [
        | inr bad ↦
            outcome end_file t (c.cache_miss_write_count + 1) false
              (rw (part.initialized, modified, opened, bad, save_track) refl)
              (stays end_file (c.cache_miss_write_count + 1) false
                (save_failed-Holds shift blocks i (tracks_of c) c.file d r.holds t end_file i_max
                  is_t (subst (SavedFrom t 0 c.file end_file) bad all_saved))
                (λ e. ground arith) (λ w. ground (arith, succeeds w, bad)))
        | inl good ↦
            outcome end_file (saved_track t) (c.cache_miss_write_count + 1) true
              (rw (part.initialized, modified, opened, good, save_track) refl)
              (record {
                after = saved_track t;
                represents =
                    stored-Represents end_file (saved_track t) (c.cache_miss_write_count + 1) (
                      save-Holds shift blocks i (tracks_of c) c.file d r.holds t end_file i_max is_t
                        (subst (SavedFrom t 0 c.file end_file) good all_saved));
                tracks_after = set_track-tracks_of i (some (saved_track t)) (record c {
                  file = end_file;
                  cache_miss_write_count = c.cache_miss_write_count + 1;
                });
                number = refl;
                unmarked = λ e j. refl;
                works = λ w. (refl, still_works (saved_track t) (c.cache_miss_write_count + 1) w);
              })
      ]
    ]
  ]
