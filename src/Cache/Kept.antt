-- ===== src/Cache/Kept.antt =====
-- A track enters an empty slot, leaves one when it is not modified, or is saved: the contents of
-- the disk stay.
use scsi2pi.Base.{
  ℕ, ◌+◌, ◌-◌, ◌*◌, ◌^◌, ◌<◌, ◌≤◌, ◌≡◌, ◌≢◌, ◌⊎◌, inl, inr, refl, sym, ap, subst, ◌∙◌, Bool,
  Bool-cases, leb, ltb, not_leb→lt, not_ltb→le, leb→le, ltb→lt, true, false, arith, Option, none,
  some, block_inside,
}
use mathlib.Core.Option.{some-injective}
use scsi2pi.File.{ImageFile, Durable}
use scsi2pi.Cache.Track.{DiskTrack, saved_track}
use scsi2pi.Cache.Track.Saved.{SavedFrom, MarkedFrom}
use scsi2pi.Cache.Disk.{cache_max, track_sectors}
use scsi2pi.Cache.Holds.{
  Holds, HoldsTrack, Clean, with_track, with_some-cases, with_none-cases, with_track_away,
}

-- Whether the sector `b` is one that saving the track writes.
pub marked-cases :
    (t : DiskTrack) (b : ℕ)
    → ((j : ℕ) × MarkedFrom t 0 j × (b ≡ t.track_number * 256 + j))
      ⊎ ((j : ℕ) → MarkedFrom t 0 j → b ≢ t.track_number * 256 + j)
marked-cases t b =
    let n = b - t.track_number * 256 in
    elim (Bool-cases (leb (t.track_number * 256) b)) [
      | inr below ↦ inr (λ j m e. absurd (omega (arith, not_leb→lt _ b below)))
      | inl above ↦
          let low = leb→le (t.track_number * 256) b above in
          elim (Bool-cases (ltb n t.sector_count)) [
            | inr behind ↦ inr (λ j m e. absurd (omega (arith, not_ltb→le n _ behind, m.1)))
            | inl inside ↦ elim (Bool-cases (t.modified_flags n)) [
              | inl mark ↦ inl (n, (omega arith, ltb→lt n _ inside, mark), omega arith)
              | inr clean ↦
                  inr (λ j m e. ground (arith, ap t.modified_flags (n_is j low e), m.2, clean))
            ]
          ]
    ]
  where
    n_is :
        (j : ℕ)
        → t.track_number * 256 ≤ b
        → b ≡ t.track_number * 256 + j
        → b - t.track_number * 256 ≡ j
    n_is j low e = omega arith

-- A sector of the disk lies within the sectors of its track.
pub track_sectors_inside :
    (blocks track n : ℕ) → n < 256 → track * 256 + n < blocks → n < track_sectors blocks track
track_sectors_inside blocks track n l inside = ground arith

pub track_sectors_few : (blocks track n : ℕ) → n < track_sectors blocks track → n < 256
track_sectors_few blocks track n l = ground arith

others_at :
    {t : DiskTrack} {i : ℕ} {f g : ImageFile} {ok : Bool} {shift : ℕ}
    → t.shift_count ≡ shift
    → SavedFrom t i f g ok
    → (b k : ℕ) → k < 2 ^ shift
    → b * 2 ^ shift + k < f.size
    → ((j : ℕ) → MarkedFrom t i j → b ≢ t.track_number * 256 + j)
    → g.at (b * 2 ^ shift + k) ≡ f.at (b * 2 ^ shift + k)
others_at {t = t} {i = i} {f = f} {g = g} e s =
    subst
      (λ n.
        (b k : ℕ)
        → k < 2 ^ n
        → b * 2 ^ n + k < f.size
        → ((j : ℕ) → MarkedFrom t i j → b ≢ t.track_number * 256 + j)
        → g.at (b * 2 ^ n + k) ≡ f.at (b * 2 ^ n + k))
      e s.others

modified_at :
    {t : DiskTrack} {i : ℕ} {f g : ImageFile} {shift : ℕ}
    → t.shift_count ≡ shift
    → SavedFrom t i f g true
    → (j k : ℕ) → MarkedFrom t i j
    → k < 2 ^ shift
    → g.at ((t.track_number * 256 + j) * 2 ^ shift + k) ≡ t.buffer (j * 2 ^ shift + k)
modified_at {t = t} {i = i} {g = g} e s =
    subst
      (λ n.
        (j k : ℕ)
        → MarkedFrom t i j
        → k < 2 ^ n
        → g.at ((t.track_number * 256 + j) * 2 ^ n + k) ≡ t.buffer (j * 2 ^ n + k))
      e (s.modified refl)

module _ (shift blocks i : ℕ) (tracks : ℕ → Option DiskTrack) (f : ImageFile) (d : ℕ → ℕ)
    (h : Holds shift blocks tracks f d) where
  same_track : (t u : DiskTrack) (j : ℕ) → tracks i ≡ some t → tracks j ≡ some u → j ≡ i → t ≡ u
  same_track t u j is_t is_u here = some-injective _ _ (sym is_t ∙ sym (ap tracks here) ∙ is_u)

  -- The slots other than `i` have changed no sector, and `i` holds no change of it either.
  pub Clean-before :
      (t : DiskTrack) (o : Option DiskTrack) (b : ℕ)
      → tracks i ≡ some t
      → ((n : ℕ) → n < 256 → b ≡ t.track_number * 256 + n → t.modified_flags n ≡ false)
      → Clean (with_track i o tracks) b
      → Clean tracks b
  Clean-before t o b is_t unmarked c j n u l e m at_b = elim (j_cases) [
    | inl here ↦
        let t_u = same_track t u j is_t e here in
        subst (λ x. x.modified_flags n ≡ false) t_u
          (unmarked n m (subst (λ x. b ≡ x.track_number * 256 + n) (sym t_u) at_b))
    | inr away ↦ c j n u l (with_track_away i o tracks j away ∙ e) m at_b
  ]
    where
      j_cases : (j ≡ i) ⊎ (j ≢ i)
      j_cases = ground arith

  pub insert-Holds :
      (t : DiskTrack)
      → tracks i ≡ none
      → HoldsTrack shift blocks d t
      → ((j : ℕ) (u : DiskTrack)
          → j < cache_max
          → tracks j ≡ some u
          → u.track_number ≢ t.track_number)
      → Holds shift blocks (with_track i (some t) tracks) f d
  insert-Holds t empty part fresh = record {
    fits = h.fits;
    durable = h.durable;
    cached = λ j u l e. elim (with_some-cases i t tracks j e) [
      | inl (_, same) ↦ subst (HoldsTrack shift blocks d) same part
      | inr (_, old) ↦ h.cached j u l old
    ];
    unique = λ j k u v l m e g s. elim (with_some-cases i t tracks j e) [
      | inl (j_i, t_u) ↦ elim (with_some-cases i t tracks k g) [
        | inl (k_i, _) ↦ j_i ∙ sym k_i
        | inr (_, old) ↦ absurd (fresh k v m old (sym s ∙ ap (λ x. x.track_number) (sym t_u)))
      ]
      | inr (_, old) ↦ elim (with_some-cases i t tracks k g) [
        | inl (_, t_v) ↦ absurd (fresh j u l old (s ∙ ap (λ x. x.track_number) (sym t_v)))
        | inr (_, older) ↦ h.unique j k u v l m old older s
      ]
    ];
    clean = λ b k l m c.
        h.clean b k l m
          (λ j n u o e. c j n u o (with_track_away i (some t) tracks j (away j u e) ∙ e));
  }
    where
      away : (j : ℕ) (u : DiskTrack) → tracks j ≡ some u → j ≢ i
      away j u e here = ground (arith, ap tracks here, e, empty)

  pub remove-Holds :
      (t : DiskTrack)
      → tracks i ≡ some t
      → ((j : ℕ) → t.modified_flags j ≡ false)
      → Holds shift blocks (with_track i none tracks) f d
  remove-Holds t is_t unmarked = record {
    fits = h.fits;
    durable = h.durable;
    cached = λ j u l e. h.cached j u l (with_none-cases i tracks j e).1;
    unique = λ j k u v l m e g.
        h.unique j k u v l m (with_none-cases i tracks j e).1 (with_none-cases i tracks k g).1;
    clean = λ b k l m c. h.clean b k l m (Clean-before t none b is_t (λ n _ _. unmarked n) c);
  }

  -- The slot `i` gets another version of its track.
  pub replace-Holds :
      (t new : DiskTrack) (g : ImageFile) (e : ℕ → ℕ)
      → i < cache_max
      → tracks i ≡ some t
      → new.track_number ≡ t.track_number
      → f.size ≤ g.size
      → Durable g
      → HoldsTrack shift blocks e new
      → ((j : ℕ) (u : DiskTrack)
          → j < cache_max
          → j ≢ i
          → tracks j ≡ some u
          → HoldsTrack shift blocks e u)
      → ((b k : ℕ)
          → b < blocks
          → k < 2 ^ shift
          → Clean (with_track i (some new) tracks) b
          → g.at (b * 2 ^ shift + k) ≡ e (b * 2 ^ shift + k))
      → Holds shift blocks (with_track i (some new) tracks) g e
  replace-Holds t new g e i_max is_t number size durable part others clean = record {
    fits = omega (arith, h.fits, size);
    durable = durable;
    cached = λ j u l is_u. elim (with_some-cases i new tracks j is_u) [
      | inl (_, same) ↦ subst (HoldsTrack shift blocks e) same part
      | inr (away, old) ↦ others j u l away old
    ];
    unique = λ j k u v l m is_u is_v same. elim (with_some-cases i new tracks j is_u) [
      | inl (j_i, n_u) ↦ elim (with_some-cases i new tracks k is_v) [
        | inl (k_i, _) ↦ j_i ∙ sym k_i
        | inr (_, old) ↦
            j_i
            ∙ h.unique i k t v i_max m is_t old (sym number ∙ ap (λ x. x.track_number) n_u ∙ same)
      ]
      | inr (_, old) ↦ elim (with_some-cases i new tracks k is_v) [
        | inl (k_i, n_v) ↦
            h.unique j i u t l i_max old is_t (same ∙ sym (ap (λ x. x.track_number) n_v) ∙ number)
            ∙ sym k_i
        | inr (_, older) ↦ h.unique j k u v l m old older same
      ]
    ];
    clean = clean;
  }

  unmarked :
      (t : DiskTrack)
      → HoldsTrack shift blocks d t
      → (b : ℕ) → b < blocks
      → ((j : ℕ) → MarkedFrom t 0 j → b ≢ t.track_number * 256 + j)
      → (n : ℕ) → n < 256
      → b ≡ t.track_number * 256 + n
      → t.modified_flags n ≡ false
  unmarked t part b l apart n m at_b = elim (Bool-cases (t.modified_flags n)) [
    | inr clean ↦ clean
    | inl mark ↦ absurd (
        apart n
          (
            omega arith,
            subst (λ x. n < x) (sym part.sectors)
                (track_sectors_inside blocks t.track_number n m (omega arith)),
            mark,
          )
          at_b)
  ]

  pub save-Holds :
      (t : DiskTrack) (g : ImageFile)
      → i < cache_max
      → tracks i ≡ some t
      → SavedFrom t 0 f g true
      → Holds shift blocks (with_track i (some (saved_track t)) tracks) g d
  save-Holds t g i_max is_t s =
      let part = h.cached i t i_max is_t in
      replace-Holds t (saved_track t) g d i_max is_t refl s.keeps_size s.durable (saved_part part)
        (λ j u l _ is_u. h.cached j u l is_u)
        (λ b k l m c. elim (marked-cases t b) [
          | inl (j, m_j, at_b) ↦
              ap (λ x. g.at (x * 2 ^ shift + k)) at_b
              ∙ (modified_at part.shift s j k m_j m ∙ part.content j k m_j.1 m)
              ∙ sym (ap (λ x. d (x * 2 ^ shift + k)) at_b)
          | inr apart ↦
              others_at part.shift s b k m (omega (arith, h.fits, block_inside (2 ^ shift) l m))
                apart
              ∙ h.clean b k l m
                  (Clean-before t (some (saved_track t)) b is_t (unmarked t part b l apart) c)
        ])
    where
      saved_part : HoldsTrack shift blocks d t → HoldsTrack shift blocks d (saved_track t)
      saved_part p = record {
        shift = p.shift;
        initialized = p.initialized;
        starts = p.starts;
        sectors = p.sectors;
        unmodified = λ _ j. refl;
        content = p.content;
      }

  pub save_failed-Holds :
      (t : DiskTrack) (g : ImageFile)
      → i < cache_max
      → tracks i ≡ some t
      → SavedFrom t 0 f g false
      → Holds shift blocks tracks g d
  save_failed-Holds t g i_max is_t s =
      let part = h.cached i t i_max is_t in
      record {
        fits = omega (arith, h.fits, s.keeps_size);
        durable = s.durable;
        cached = h.cached;
        unique = h.unique;
        clean = λ b k l m c.
            others_at part.shift s b k m (omega (arith, h.fits, block_inside (2 ^ shift) l m))
              (λ j marked at_b.
                ground (arith, c i j t i_max is_t (few part j marked.1) at_b, marked.2))
            ∙ h.clean b k l m c;
      }
    where
      few : HoldsTrack shift blocks d t → (j : ℕ) → j < t.sector_count → j < 256
      few part j l = track_sectors_few blocks t.track_number j (subst (λ n. j < n) part.sectors l)
