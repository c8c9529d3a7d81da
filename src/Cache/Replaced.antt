-- ===== src/Cache/Replaced.antt =====
-- DiskCache::AssignTrack where every slot is taken: which slot makes room.
use scsi2pi.Base.{
  ℕ, zero, suc, ◌+◌, ◌*◌, ◌<◌, ◌≤◌, ◌≡◌, ◌≢◌, ==_refl, not_==, in_branches, if◌then◌else◌, inl, inr,
  refl, sym, ap, subst, ◌∙◌, Bool, true, false, arith, Option, Option-cases, none, some, leb, ◌||◌,
  not,
}
use scsi2pi.Cache.Track.{DiskTrack, init_track, load_track, save_track}
use scsi2pi.Cache.Disk.{
  CacheData, DiskCache, Assigned, crashed, failed, found, cache_max, put, set_serial, set_track,
  load, loaded, save, oldest, reload, replace_slot, replace_oldest, find_slot, holds_track,
  fill_empty, assign_slot, after_fill, assign_track, is_empty, from_option, track_sectors,
}
use scsi2pi.Cache.Loaded.{Represents, Works, Absent, tracks_of}
use scsi2pi.Cache.Slots.{oldest-least, find_slot-some, holds_track_found}
use scsi2pi.Cache.Assigned.{assign_track-outcome}

-- The cache `e` has the serial number of `c`, and its slots but for the slot `i`.
record SameBut (i : ℕ) (c e : DiskCache) : Type 0 where
  serial : e.serial ≡ c.serial
  others : (j : ℕ) → j ≢ i → e.cache j ≡ c.cache j

put_away : (i j : ℕ) (x : CacheData) (slots : ℕ → CacheData) → j ≢ i → put i x slots j ≡ slots j
unfolding put
put_away i j x slots away = ap (λ b. if b then x else slots j) (not_== j i away)

set_track-SameBut : (i : ℕ) (o : Option DiskTrack) (c : DiskCache) → SameBut i c (set_track i o c)
set_track-SameBut i o c = record {
  serial = refl;
  others =
      λ j away. put_away i j (record { disktrk = o; serial = (c.cache i).serial }) c.cache away;
}

SameBut-trans : {i : ℕ} {a b c : DiskCache} → SameBut i a b → SameBut i b c → SameBut i a c
SameBut-trans one two = record {
  serial = two.serial ∙ one.serial;
  others = λ j away. two.others j away ∙ one.others j away;
}

-- If a track was found, it is in the slot `i`, and no other slot has changed.
unfoldable AtSlot : ℕ → DiskCache → Assigned → Type 0
AtSlot i c crashed = Unit {0}
AtSlot i c (failed e) = Unit {0}
AtSlot i c (found e k) = (k ≡ i) × SameBut i c e

-- And the slot has got the serial number of the cache.
unfoldable Renewed : ℕ → DiskCache → Assigned → Type 0
Renewed i c crashed = Unit {0}
Renewed i c (failed e) = Unit {0}
Renewed i c (found e k) = (k ≡ i) × ((e.cache i).serial ≡ c.serial) × SameBut i c e

load-AtSlot : (i track : ℕ) (p : Option DiskTrack) (c : DiskCache) → AtSlot i c (load i track p c)
unfolding load AtSlot
load-AtSlot i track p c =
    in_branches (AtSlot i c) {yes_case = crashed} tt
      (after_load (
        load_track c.file c.opens_input
          (init_track track c.shift_count (track_sectors c.blocks track) (from_option p))
          c.cache_miss_read_count))
      (not (is_empty (c.cache i).disktrk) || leb c.blocks (track * 256))
  where
    after_load : (r : DiskTrack × Bool × ℕ) → AtSlot i c (loaded i c r)
    after_load (t, ok, misses) =
        in_branches (AtSlot i c)
          {yes_case = found (set_track i (some t) (record c { cache_miss_read_count = misses })) i}
          {no_case = failed (record c {
            cache_miss_read_count = misses;
            read_error_count = c.read_error_count + 1;
          })}
          (
            refl,
            record {
              serial = refl;
              others =
                  (set_track-SameBut i (some t)
                    (record c { cache_miss_read_count = misses })).others;
            },
          )
          tt ok

set_serial-Renewed :
    (i k : ℕ) (c e : DiskCache) → k ≡ i → SameBut i c e → Renewed i c (found (set_serial k e) k)
unfolding Renewed put
set_serial-Renewed i k c e at_i same = (
  at_i,
  ap (λ x. ((set_serial x e).cache i).serial) at_i
      ∙ ap
          (λ b.
            (if b
              then record { disktrk = (e.cache i).disktrk; serial = e.serial }
              else e.cache i).serial)
          (==_refl i)
      ∙ same.serial,
  record {
    serial = same.serial;
    others = λ j away.
        put_away k j (record { disktrk = (e.cache k).disktrk; serial = e.serial }) e.cache
          (λ h. away (h ∙ at_i))
        ∙ same.others j away;
  },
)

reload-Renewed :
    (i track : ℕ) (c : DiskCache) (p : DiskCache × Bool)
    → SameBut i c p.0
    → Renewed i c (reload i track p)
unfolding Renewed AtSlot
reload-Renewed i track c (e, false) same = tt
reload-Renewed i track c (e, true) same =
    after_load (load i track (e.cache i).disktrk (set_track i none e))
      (load-AtSlot i track (e.cache i).disktrk (set_track i none e))
  where
    after_load :
        (o : Assigned)
        → AtSlot i (set_track i none e) o
        → Renewed i c (elim o [
          | crashed ↦ crashed
          | failed c1 ↦ failed c1
          | found c1 k ↦ found (set_serial k c1) k
        ])
    after_load crashed h = tt
    after_load (failed c1) h = tt
    after_load (found c1 k) h =
        set_serial-Renewed i k c c1 h.0
          (SameBut-trans same (SameBut-trans (set_track-SameBut i none e) h.1))

save-SameBut : (i : ℕ) (t : DiskTrack) (c : DiskCache) → SameBut i c (save i t c).0
unfolding save
save-SameBut i t c =
    let r = save_track c.file c.opens_output t c.cache_miss_write_count in
    record {
      serial = refl;
      others =
          (set_track-SameBut i (some r.1)
            (record c { file = r.0; cache_miss_write_count = r.3 })).others;
    }

replace_oldest-Renewed : (track : ℕ) (c : DiskCache) → Renewed (oldest c) c (replace_oldest track c)
unfolding replace_oldest replace_slot Renewed
replace_oldest-Renewed track c = by_track (c.cache (oldest c)).disktrk
  where
    by_track : (o : Option DiskTrack) → Renewed (oldest c) c (replace_slot (oldest c) track c o)
    by_track none = tt
    by_track (some t) =
        reload-Renewed (oldest c) track c (save (oldest c) t c) (save-SameBut (oldest c) t c)

-- Every slot is taken.
abbrev pub AllTaken : DiskCache → Type 0
AllTaken c = (i : ℕ) → i < cache_max → tracks_of c i ≢ none

fill_taken :
    (track i left : ℕ) (c : DiskCache)
    → i + left ≡ cache_max
    → AllTaken c
    → fill_empty track i left c ≡ failed c
unfolding fill_empty
fill_taken track i zero c end taken = refl
fill_taken track i (suc left) c end taken = elim (Option-cases (tracks_of c i)) [
  | inl is_none ↦ absurd (taken i (omega arith) is_none)
  | inr (t, is_t) ↦ rw (is_t, fill_empty) (fill_taken track (i + 1) left c (omega arith) taken)
]

no_slot :
    (track : ℕ) (c : DiskCache)
    → Absent track (tracks_of c)
    → find_slot (holds_track track) c.cache 0 cache_max ≡ none
no_slot track c absent = elim (Option-cases (find_slot (holds_track track) c.cache 0 cache_max)) [
  | inl e ↦ e
  | inr (i, e) ↦
      let hit = find_slot-some (holds_track track) c.cache 0 cache_max i e in
      let it = holds_track_found c track i hit.0 in absurd (absent i it.0 hit.1 it.1 it.2)
]

taken_lem :
    (track : ℕ) (c : DiskCache)
    → Absent track (tracks_of c)
    → AllTaken c
    → assign_track track c ≡ replace_oldest track c
unfolding assign_track assign_slot after_fill
taken_lem track c absent taken =
    ap (assign_slot track c) (no_slot track c absent)
    ∙ ap (after_fill track) (fill_taken track 0 cache_max c refl taken)

-- Where the system refuses no access to the file, AssignTrack loads a track of the disk that is not in
-- memory while every slot is taken into a slot that had the smallest serial number of all. The slot
-- gets the serial number of the cache, and the other slots are as they were.
pub assign_track-least :
    (shift blocks : ℕ) (d : ℕ → ℕ) (track : ℕ) (c : DiskCache)
    → track * 256 < blocks
    → Represents shift blocks d c
    → Works c
    → Absent track (tracks_of c)
    → AllTaken c
    → (e : DiskCache) × (i : ℕ) × (t : DiskTrack) × (assign_track track c ≡ found e i)
      × (i < cache_max)
      × ((j : ℕ) → j < cache_max → (c.cache i).serial ≤ (c.cache j).serial)
      × (tracks_of e i ≡ some t)
      × (t.track_number ≡ track)
      × ((e.cache i).serial ≡ c.serial)
      × ((j : ℕ) → j ≢ i → e.cache j ≡ c.cache j)
unfolding Renewed
assign_track-least shift blocks d track c starts r w absent taken =
    elim (assign_track-outcome shift blocks d track c starts r) [
      | inl (_, broken) ↦ absurd (broken w)
      | inr (inl lost) ↦ absurd (lost.broken w)
      | inr (inr got) ↦
          let least = oldest-least c in
          let new : Renewed (oldest c) c (found got.end_cache got.slot) =
            subst (Renewed (oldest c) c) (sym (taken_lem track c absent taken) ∙ got.is_found)
              (replace_oldest-Renewed track c) in
          (
            got.end_cache,
            got.slot,
            got.disktrk,
            got.is_found,
            got.inside,
            λ j l. subst (λ k. (c.cache k).serial ≤ (c.cache j).serial) (sym new.0) (least.1 j l),
            got.in_slot,
            got.number,
            ap (λ k. (got.end_cache.cache k).serial) new.0 ∙ new.1,
            λ j away. new.2.others j (λ h. away (h ∙ sym new.0)),
          )
    ]
