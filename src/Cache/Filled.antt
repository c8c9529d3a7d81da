-- ===== src/Cache/Filled.antt =====
-- DiskCache::AssignTrack: a track is loaded into the first empty slot where that works.
use scsi2pi.Base.{
  ℕ, zero, suc, ◌+◌, ◌*◌, ◌<◌, ◌≤◌, ◌≡◌, ◌≢◌, ◌⊎◌, inl, inr, refl, sym, ap, subst, ◌∙◌,
  Option-cases, arith, none, some, eq-cases,
}
use scsi2pi.Cache.Track.{DiskTrack}
use scsi2pi.Cache.Disk.{
  DiskCache, Assigned, crashed, failed, found, cache_max, set_serial, load, fill_empty,
}
use scsi2pi.Cache.Holds.{Holds}
use scsi2pi.Cache.Loaded.{Represents, Works, Absent, load-outcome, tracks_of, set_serial-tracks_of}

pub record Got (shift blocks : ℕ) (d : ℕ → ℕ) (track : ℕ) (c : DiskCache) (o : Assigned)
    : Type 0 where
  pub end_cache : DiskCache
  pub slot : ℕ
  pub disktrk : DiskTrack
  pub is_found : o ≡ found end_cache slot
  pub inside : slot < cache_max
  pub represents : Represents shift blocks d end_cache
  pub in_slot : tracks_of end_cache slot ≡ some disktrk
  pub number : disktrk.track_number ≡ track
  pub still_works : Works c → Works end_cache

pub record Lost (shift blocks : ℕ) (d : ℕ → ℕ) (c : DiskCache) (o : Assigned) : Type 0 where
  pub end_cache : DiskCache
  pub is_failed : o ≡ failed end_cache
  pub represents : Represents shift blocks d end_cache
  pub broken : ¬ Works c

-- The track was found, or the access to the file failed, or the program crashed.
abbrev pub Replaced :
    (shift blocks : ℕ) (d : ℕ → ℕ) (track : ℕ) (c : DiskCache) (o : Assigned) → Type 0
Replaced shift blocks d track c o =
    ((o ≡ crashed) × ¬ Works c) ⊎ Lost shift blocks d c o ⊎ Got shift blocks d track c o

-- No empty slot was left from the slot `i` on, or loading failed.
pub record Full (shift blocks : ℕ) (d : ℕ → ℕ) (i : ℕ) (c : DiskCache) (o : Assigned) : Type 0 where
  pub end_cache : DiskCache
  pub is_failed : o ≡ failed end_cache
  pub represents : Represents shift blocks d end_cache
  pub same_tracks : tracks_of end_cache ≡ tracks_of c
  pub full :
      Works c → Works end_cache × ((j : ℕ) → i ≤ j → j < cache_max → tracks_of end_cache j ≢ none)

set_serial-Represents :
    (shift blocks : ℕ) (d : ℕ → ℕ) (i : ℕ) (c : DiskCache)
    → Represents shift blocks d c
    → Represents shift blocks d (set_serial i c)
set_serial-Represents shift blocks d i c r = record {
  same_shift = r.same_shift;
  same_blocks = r.same_blocks;
  holds = subst (λ ts. Holds shift blocks ts c.file d) (sym (set_serial-tracks_of i c)) r.holds;
}

Got-after :
    {shift blocks : ℕ} {d : ℕ → ℕ} {track : ℕ} (c c1 : DiskCache) (o : Assigned)
    → (Works c → Works c1)
    → Got shift blocks d track c1 o
    → Got shift blocks d track c o
Got-after c c1 o works g = record {
  end_cache = g.end_cache;
  slot = g.slot;
  disktrk = g.disktrk;
  is_found = g.is_found;
  inside = g.inside;
  represents = g.represents;
  in_slot = g.in_slot;
  number = g.number;
  still_works = λ w. g.still_works (works w);
}

-- What holds before some step that keeps the file working.
pub lifted :
    {shift blocks : ℕ} {d : ℕ → ℕ} {track : ℕ} (b c : DiskCache) (o : Assigned)
    → (Works b → Works c)
    → Replaced shift blocks d track c o
    → Replaced shift blocks d track b o
lifted b c o works (inl (is_crashed, broken)) = inl (is_crashed, λ w. broken (works w))
lifted b c o works (inr (inl lost)) = inr (
    inl (record {
      end_cache = lost.end_cache;
      is_failed = lost.is_failed;
      represents = lost.represents;
      broken = λ w. lost.broken (works w);
    }))
lifted b c o works (inr (inr got)) = inr (inr (Got-after b c o works got))

module _ (shift blocks : ℕ) (d : ℕ → ℕ) (track : ℕ) (starts : track * 256 < blocks) where
  pub touched :
      (c e : DiskCache) (i : ℕ) (t : DiskTrack)
      → i < cache_max
      → Represents shift blocks d e
      → tracks_of e i ≡ some t
      → t.track_number ≡ track
      → (Works c → Works e)
      → Got shift blocks d track c (found (set_serial i e) i)
  touched c e i t i_max r is_t number works = record {
    end_cache = set_serial i e;
    slot = i;
    disktrk = t;
    is_found = refl;
    inside = i_max;
    represents = set_serial-Represents shift blocks d i e r;
    in_slot = ap (λ ts. ts i) (set_serial-tracks_of i e) ∙ is_t;
    number = number;
    still_works =
        λ w. let v = works w in record { sound = v.sound; input = v.input; output = v.output };
  }

  widened :
      (i : ℕ) (c c1 : DiskCache) (o : Assigned)
      → (Works c → Works c1 × (tracks_of c1 i ≢ none))
      → tracks_of c1 ≡ tracks_of c
      → Full shift blocks d (i + 1) c1 o
      → Full shift blocks d i c o
  widened i c c1 o works same f = record {
    end_cache = f.end_cache;
    is_failed = f.is_failed;
    represents = f.represents;
    same_tracks = f.same_tracks ∙ same;
    full = λ w. (
      (f.full (works w).0).0,
      λ j a b. elim (eq-cases i j) [
        | inl here ↦
            subst (λ x. tracks_of f.end_cache x ≢ none) here
              (λ e. (works w).1 (ap (λ ts. ts i) (sym f.same_tracks) ∙ e))
        | inr away ↦ (f.full (works w).0).1 j (omega arith) b
      ],
    );
  }

  unfoldable pub Filled : (i : ℕ) (c : DiskCache) (o : Assigned) → Type 0
  Filled i c o = Full shift blocks d i c o ⊎ Got shift blocks d track c o

  next_slot :
      (i : ℕ) (c c1 : DiskCache) (o : Assigned)
      → (Works c → Works c1 × (tracks_of c1 i ≢ none))
      → tracks_of c1 ≡ tracks_of c
      → Filled (i + 1) c1 o
      → Filled i c o
  unfolding Filled
  next_slot i c c1 o works same (inl f) = inl (widened i c c1 o works same f)
  next_slot i c c1 o works same (inr g) = inr (Got-after c c1 o (λ w. (works w).0) g)

  -- One step of the search, by what the slot holds.
  fill_occupied :
      (i left : ℕ) (c : DiskCache) (t : DiskTrack)
      → tracks_of c i ≡ some t
      → fill_empty track i (suc left) c ≡ fill_empty track (i + 1) left c
  unfolding fill_empty
  fill_occupied i left c t e = rw (e, fill_empty) refl

  pub fill_refused :
      (i left : ℕ) (c c1 : DiskCache)
      → tracks_of c i ≡ none
      → load i track none c ≡ failed c1
      → fill_empty track i (suc left) c ≡ fill_empty track (i + 1) left c1
  unfolding fill_empty
  fill_refused i left c c1 e l = rw (e, l, fill_empty) refl

  fill_entered :
      (i left k : ℕ) (c c1 : DiskCache)
      → tracks_of c i ≡ none
      → load i track none c ≡ found c1 k
      → fill_empty track i (suc left) c ≡ found (set_serial k c1) k
  unfolding fill_empty
  fill_entered i left k c c1 e l = rw (e, l, fill_empty) refl

  pub fill_empty-outcome :
      (i left : ℕ) (c : DiskCache)
      → i + left ≡ cache_max
      → Represents shift blocks d c
      → Absent track (tracks_of c)
      → Filled i c (fill_empty track i left c)
  unfolding fill_empty Filled
  fill_empty-outcome i zero c end r absent = inl (record {
    end_cache = c;
    is_failed = refl;
    represents = r;
    same_tracks = refl;
    full = λ w. (w, λ j a b. absurd (omega arith));
  })
  fill_empty-outcome i (suc left) c end r absent = elim (Option-cases (tracks_of c i)) [
    | inr (t, is_t) ↦ subst (Filled i c) (sym (fill_occupied i left c t is_t)) (
        next_slot i c c _ (λ w. (w, λ e. ground (arith, e, is_t))) refl
          (fill_empty-outcome (i + 1) left c (omega arith) r absent))
    | inl is_none ↦
        elim (load-outcome shift blocks d c r track absent starts i (omega arith) is_none none) [
          | inr new ↦
              subst (Filled i c) (sym (fill_entered i left i c new.end_cache is_none new.is_found))
                (inr (
                  touched c new.end_cache i new.disktrk (omega arith) new.represents new.entered
                    new.number new.still_works))
          | inl refused ↦
              subst (Filled i c)
                (sym (fill_refused i left c refused.end_cache is_none refused.is_failed))
                (next_slot i c refused.end_cache _ (λ w. absurd (refused.broken w))
                  refused.same_tracks
                  (fill_empty-outcome (i + 1) left refused.end_cache (omega arith)
                    refused.represents (subst (Absent track) (sym refused.same_tracks) absent)))
        ]
  ]
