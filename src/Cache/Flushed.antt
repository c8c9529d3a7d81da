-- ===== src/Cache/Flushed.antt =====
-- DiskCache::Flush: afterwards the image file has the contents of the disk.
use scsi2pi.Base.{
  ℕ, zero, suc, ◌+◌, ◌*◌, ◌^◌, ◌<◌, ◌≡◌, inl, inr, refl, sym, ap, ◌∙◌, Bool, true, false, arith,
  Option, none, some, eq-cases,
}
use scsi2pi.Cache.Track.{DiskTrack}
use scsi2pi.Cache.Disk.{DiskCache, cache_max, flush, flush_from, flush_slot}
use scsi2pi.Cache.Holds.{with_some-cases}
use scsi2pi.Cache.Loaded.{Represents, Works, tracks_of}
use scsi2pi.Cache.Stored.{save-Stored}

-- The slots before `i` hold no modified track.
abbrev Unmarked : ℕ → (ℕ → Option DiskTrack) → Type 0
Unmarked i tracks =
    (k j : ℕ) (t : DiskTrack) → k < i → tracks k ≡ some t → t.modified_flags j ≡ false

-- The slots below `bound` have been flushed, or saving one failed.
record Flushed (shift blocks : ℕ) (d : ℕ → ℕ) (bound : ℕ) (c : DiskCache) (r : DiskCache × Bool)
    : Type 0 where
  represents : Represents shift blocks d r.0
  unmarked : r.1 ≡ true → Unmarked bound (tracks_of r.0)
  works : Works c → (r.1 ≡ true) × Works r.0

module _ (shift blocks : ℕ) (d : ℕ → ℕ) where
  -- One slot.
  flush_slot-Flushed :
      (i : ℕ) (c : DiskCache) (o : Option DiskTrack)
      → i < cache_max
      → tracks_of c i ≡ o
      → Represents shift blocks d c
      → Unmarked i (tracks_of c)
      → Flushed shift blocks d (i + 1) c (flush_slot i c o)
  unfolding flush_slot
  flush_slot-Flushed i c none i_max e r clean = record {
    represents = r;
    unmarked = λ _ k j t l is_t. elim (eq-cases k i) [
      | inl here ↦ absurd (ground (arith, ap (tracks_of c) here, is_t, e))
      | inr away ↦ clean k j t (omega arith) is_t
    ];
    works = λ w. (refl, w);
  }
  flush_slot-Flushed i c (some t) i_max e r clean =
      let s = save-Stored shift blocks d c r i i_max t e in
      record {
        represents = s.represents;
        unmarked = λ ok k j u l is_u.
            elim (with_some-cases i s.after (tracks_of c) k
              (ap (λ ts. ts k) (sym s.tracks_after) ∙ is_u)) [
                | inl (_, same) ↦ ap (λ x. x.modified_flags j) (sym same) ∙ s.unmarked ok j
                | inr (away, old) ↦ clean k j u (omega arith) old
              ];
        works = s.works;
      }

  -- The rest of the loop, after one slot.
  flush_rest :
      (i : ℕ) (c : DiskCache) (p : DiskCache × Bool) (rest : DiskCache × Bool)
      → Flushed shift blocks d (i + 1) c p
      → (p.1 ≡ true → Flushed shift blocks d cache_max p.0 rest)
      → Flushed shift blocks d cache_max c (elim p.1 [ true ↦ rest | false ↦ p ])
  flush_rest i c (e, true) rest one more =
      let m = more refl in
      record {
        represents = m.represents;
        unmarked = m.unmarked;
        works = λ w. m.works (one.works w).1;
      }
  flush_rest i c (e, false) rest one more = record {
    represents = one.represents;
    unmarked = λ ok. ground (arith, ok);
    works = λ w. ground (arith, (one.works w).0);
  }

  flush_from-Flushed :
      (i left : ℕ) (c : DiskCache)
      → i + left ≡ cache_max
      → Represents shift blocks d c
      → Unmarked i (tracks_of c)
      → Flushed shift blocks d cache_max c (flush_from i left c)
  unfolding flush_from
  flush_from-Flushed i zero c end r clean = record {
    represents = r;
    unmarked = λ e k j t l. clean k j t (omega arith);
    works = λ w. (refl, w);
  }
  flush_from-Flushed i (suc left) c end r clean =
      let one = flush_slot-Flushed i c (tracks_of c i) (omega arith) refl r clean in
      flush_rest i c (flush_slot i c (tracks_of c i)) _ one (λ ok.
        flush_from-Flushed (i + 1) left (flush_slot i c (tracks_of c i)).0 (omega arith)
          one.represents (one.unmarked ok))

-- As long as no accepted write to the image file is lost when the stream is closed: Flush keeps the
-- contents of the disk, and if it reports success the image file has exactly these contents. It
-- reports success where the system refuses no access to the file.
pub flush-Represents :
    (shift blocks : ℕ) (d : ℕ → ℕ) (c : DiskCache)
    → Represents shift blocks d c
    → Represents shift blocks d (flush c).0
      × ((flush c).1 ≡ true
          → (b k : ℕ) → b < blocks
          → k < 2 ^ shift
          → (flush c).0.file.at (b * 2 ^ shift + k) ≡ d (b * 2 ^ shift + k))
      × (Works c → ((flush c).1 ≡ true) × Works (flush c).0)
unfolding flush
flush-Represents shift blocks d c r =
    let f =
      flush_from-Flushed shift blocks d 0 cache_max c refl r (λ k j t l. absurd (omega arith)) in
    (
      f.represents,
      λ ok b k l m.
          f.represents.holds.clean b k l m (λ i j t i_max is_t _ _. f.unmarked ok i j t i_max is_t),
      f.works,
    )
