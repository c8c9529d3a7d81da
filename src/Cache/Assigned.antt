-- ===== src/Cache/Assigned.antt =====
-- DiskCache::AssignTrack finds the track, in every case with the same contents of the disk, and
-- fails only where the system refuses an access to the image file.
use scsi2pi.Base.{
  ℕ, ◌*◌, ◌<◌, ◌≡◌, ◌≢◌, inl, inr, refl, sym, ap, subst, ◌∙◌, Bool, Option-cases, true, false,
  arith, Option, none, some,
}
use scsi2pi.Cache.Track.{DiskTrack}
use scsi2pi.Cache.Disk.{
  DiskCache, Assigned, crashed, failed, found, cache_max, set_serial, set_track, load, save, oldest,
  reload, replace_slot, replace_oldest, find_slot, holds_track, assign_slot, after_fill,
  assign_track,
}
use scsi2pi.Cache.Holds.{Holds, with_track, with_track_here, with_none-cases, with_some-cases}
use scsi2pi.Cache.Kept.{remove-Holds}
use scsi2pi.Cache.Loaded.{Represents, Works, Absent, load-outcome, tracks_of, set_track-tracks_of}
use scsi2pi.Cache.Stored.{Stored, save-Stored}
use scsi2pi.Cache.Slots.{oldest-least, find_slot-some, holds_track_found, holds_track-Absent}
use scsi2pi.Cache.Filled.{Replaced, Filled, Got, touched, lifted, fill_empty-outcome}

module _ (shift blocks : ℕ) (d : ℕ → ℕ) (track : ℕ) (starts : track * 256 < blocks) where
  -- The slot `i` of `c1` holds the saved track, which makes room.
  reload-outcome :
      (c c1 : DiskCache) (i : ℕ) (t : DiskTrack)
      → i < cache_max
      → tracks_of c1 i ≡ some t
      → ((j : ℕ) → t.modified_flags j ≡ false)
      → Represents shift blocks d c1
      → Absent track (tracks_of c1)
      → (Works c → Works c1)
      → Replaced shift blocks d track c (reload i track (c1, true))
  reload-outcome c c1 i t i_max is_t clean r absent works =
      elim (load-outcome shift blocks d (set_track i none c1) emptied track still_absent starts i
        i_max is_empty_now (c1.cache i).disktrk) [
          | inr new ↦ inr (
              inr (
                subst (Got shift blocks d track c) (sym (by_found new.end_cache i new.is_found)) (
                  touched shift blocks d track starts c new.end_cache i new.disktrk i_max
                    new.represents new.entered new.number
                    (λ w. new.still_works (emptied_works (works w))))))
          | inl refused ↦ inr (
              inl (record {
                end_cache = refused.end_cache;
                is_failed = by_failed refused.end_cache refused.is_failed;
                represents = refused.represents;
                broken = λ w. refused.broken (emptied_works (works w));
              }))
        ]
    where
      removed : tracks_of (set_track i none c1) ≡ with_track i none (tracks_of c1)
      removed = set_track-tracks_of i none c1

      emptied : Represents shift blocks d (set_track i none c1)
      emptied = record {
        same_shift = r.same_shift;
        same_blocks = r.same_blocks;
        holds =
            subst (λ ts. Holds shift blocks ts c1.file d) (sym removed)
              (remove-Holds shift blocks i (tracks_of c1) c1.file d r.holds t is_t clean);
      }

      still_absent : Absent track (tracks_of (set_track i none c1))
      still_absent =
          subst (Absent track) (sym removed)
            (λ j u l e. absent j u l (with_none-cases i (tracks_of c1) j e).1)

      is_empty_now : tracks_of (set_track i none c1) i ≡ none
      is_empty_now = ap (λ ts. ts i) removed ∙ with_track_here i none (tracks_of c1)

      emptied_works : Works c1 → Works (set_track i none c1)
      emptied_works w = record { sound = w.sound; input = w.input; output = w.output }

      by_found :
          (e : DiskCache) (k : ℕ)
          → load i track (c1.cache i).disktrk (set_track i none c1) ≡ found e k
          → reload i track (c1, true) ≡ found (set_serial k e) k
      by_found e k l = rw l refl

      by_failed :
          (e : DiskCache)
          → load i track (c1.cache i).disktrk (set_track i none c1) ≡ failed e
          → reload i track (c1, true) ≡ failed e
      by_failed e l = rw l refl

  reloaded :
      (c : DiskCache) (i : ℕ) (t : DiskTrack)
      → i < cache_max
      → Represents shift blocks d c
      → tracks_of c i ≡ some t
      → Absent track (tracks_of c)
      → (p : DiskCache × Bool) → Stored shift blocks d i t c p.0 p.1
      → Replaced shift blocks d track c (reload i track p)
  reloaded c i t i_max r is_t absent (e, false) s = inr (
      inl (record {
        end_cache = e;
        is_failed = refl;
        represents = s.represents;
        broken = λ w. ground (arith, (s.works w).0);
      }))
  reloaded c i t i_max r is_t absent (e, true) s =
      reload-outcome c e i s.after i_max
        (ap (λ ts. ts i) s.tracks_after ∙ with_track_here i (some s.after) (tracks_of c))
        (s.unmarked refl) s.represents still_absent (λ w. (s.works w).1)
    where
      still_absent : Absent track (tracks_of e)
      still_absent = subst (Absent track) (sym s.tracks_after) (λ j u l at_j.
          elim (with_some-cases i s.after (tracks_of c) j at_j) [
            | inl (_, same) ↦ λ number.
                absent i t i_max is_t (sym s.number ∙ ap (λ x. x.track_number) same ∙ number)
            | inr (_, old) ↦ absent j u l old
          ])

  by_null : (i : ℕ) (c : DiskCache) → replace_slot i track c none ≡ crashed
  unfolding replace_slot
  by_null i c = refl

  by_track :
      (i : ℕ) (c : DiskCache) (t : DiskTrack)
      → replace_slot i track c (some t) ≡ reload i track (save i t c)
  unfolding replace_slot
  by_track i c t = refl

  replace_slot-outcome :
      (b c : DiskCache) (i : ℕ)
      → i < cache_max
      → Represents shift blocks d c
      → Absent track (tracks_of c)
      → (Works b → Works c × (tracks_of c i ≢ none))
      → Replaced shift blocks d track b (replace_slot i track c (tracks_of c i))
  replace_slot-outcome b c i i_max r absent full = elim (Option-cases (tracks_of c i)) [
    | inl is_none ↦ inl (ap (replace_slot i track c) is_none ∙ by_null i c, λ w. (full w).1 is_none)
    | inr (t, is_t) ↦
        lifted b c _ (λ w. (full w).0)
          (subst (Replaced shift blocks d track c)
            (sym (ap (replace_slot i track c) is_t ∙ by_track i c t))
            (reloaded c i t i_max r is_t absent (save i t c)
              (save-Stored shift blocks d c r i i_max t is_t)))
  ]

  after_fill-outcome :
      (c : DiskCache) (o : Assigned)
      → Absent track (tracks_of c)
      → Filled shift blocks d track starts 0 c o
      → Replaced shift blocks d track c (after_fill track o)
  unfolding Filled after_fill replace_oldest
  after_fill-outcome c o absent (inr got) =
      subst (λ x. Replaced shift blocks d track c (after_fill track x)) (sym got.is_found)
        (inr (
          inr (record {
            end_cache = got.end_cache;
            slot = got.slot;
            disktrk = got.disktrk;
            is_found = refl;
            inside = got.inside;
            represents = got.represents;
            in_slot = got.in_slot;
            number = got.number;
            still_works = got.still_works;
          })))
  after_fill-outcome c o absent (inl full) =
      let e = full.end_cache in
      subst (λ x. Replaced shift blocks d track c (after_fill track x)) (sym full.is_failed)
        (replace_slot-outcome c e (oldest e) (oldest-least e).0 full.represents
          (subst (Absent track) (sym full.same_tracks) absent)
          (λ w. ((full.full w).0, (full.full w).1 (oldest e) (omega arith) (oldest-least e).0)))

  assign_slot-outcome :
      (c : DiskCache) (o : Option ℕ)
      → Represents shift blocks d c
      → find_slot (holds_track track) c.cache 0 cache_max ≡ o
      → Replaced shift blocks d track c (assign_slot track c o)
  unfolding assign_slot
  assign_slot-outcome c none r e =
      let absent = holds_track-Absent c track e in
      after_fill-outcome c _ absent
        (fill_empty-outcome shift blocks d track starts 0 cache_max c refl r absent)
  assign_slot-outcome c (some i) r e =
      let hit = find_slot-some (holds_track track) c.cache 0 cache_max i e in
      let it = holds_track_found c track i hit.0 in
      inr (inr (touched shift blocks d track starts c c i it.0 hit.1 r it.1 it.2 (λ w. w)))

-- The search for a track ends in one of three ways.
pub assign_track-outcome :
    (shift blocks : ℕ) (d : ℕ → ℕ) (track : ℕ) (c : DiskCache)
    → track * 256 < blocks
    → Represents shift blocks d c
    → Replaced shift blocks d track c (assign_track track c)
unfolding assign_track
assign_track-outcome shift blocks d track c starts r =
    assign_slot-outcome shift blocks d track starts c
      (find_slot (holds_track track) c.cache 0 cache_max) r refl
