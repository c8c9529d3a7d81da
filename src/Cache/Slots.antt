-- ===== src/Cache/Slots.antt =====
-- DiskCache::AssignTrack: the search for a slot.
use scsi2pi.Base.{
  ℕ, zero, suc, ◌+◌, ◌<◌, ◌≤◌, ◌≡◌, inl, inr, refl, sym, ap, subst, ◌∙◌, Bool, Bool-cases,
  Option-cases, true, false, arith, none, some, ltb, ltb→lt, not_ltb→le, eq-cases,
}
use mathlib.Core.Option.{some-injective}
use scsi2pi.Cache.Track.{DiskTrack}
use scsi2pi.Cache.Disk.{
  CacheData, DiskCache, cache_max, find_slot, holds_track, oldest_from, oldest,
}
use scsi2pi.Cache.Loaded.{tracks_of, Absent}

module _ (test : CacheData → Bool) (slots : ℕ → CacheData) where
  find_slot_here : (i left : ℕ) → test (slots i) ≡ true → find_slot test slots i (suc left) ≡ some i
  unfolding find_slot
  find_slot_here i left h = rw (h, find_slot) refl

  find_slot_later :
      (i left : ℕ)
      → test (slots i) ≡ false
      → find_slot test slots i (suc left) ≡ find_slot test slots (i + 1) left
  unfolding find_slot
  find_slot_later i left h = rw (h, find_slot) refl

  pub find_slot-some :
      (i left k : ℕ)
      → find_slot test slots i left ≡ some k
      → (test (slots k) ≡ true) × (k < i + left)
  unfolding find_slot
  find_slot-some i zero k e = absurd (ground (arith, e))
  find_slot-some i (suc left) k e = elim (Bool-cases (test (slots i))) [
    | inl h ↦
        let here = some-injective i k (sym (find_slot_here i left h) ∙ e) in
        (ap (λ x. test (slots x)) (sym here) ∙ h, omega (arith, here))
    | inr h ↦
        let rest = find_slot-some (i + 1) left k (sym (find_slot_later i left h) ∙ e) in
        (rest.0, omega (arith, rest.1))
  ]

  pub find_slot-none :
      (i left : ℕ)
      → find_slot test slots i left ≡ none
      → (j : ℕ) → i ≤ j
      → j < i + left
      → test (slots j) ≡ false
  unfolding find_slot
  find_slot-none i zero e j a b = absurd (omega arith)
  find_slot-none i (suc left) e j a b = elim (Bool-cases (test (slots i))) [
    | inl h ↦ absurd (ground (arith, find_slot_here i left h, e))
    | inr h ↦ elim (eq-cases i j) [
      | inl here ↦ ap (λ x. test (slots x)) (sym here) ∙ h
      | inr away ↦
          find_slot-none (i + 1) left (sym (find_slot_later i left h) ∙ e) j (omega arith)
            (omega arith)
    ]
  ]

-- The smallest serial number is found, in one of the slots.
pub oldest_from-least :
    (slots : ℕ → CacheData) (best i left : ℕ)
    → best < i
    → (oldest_from slots best i left < i + left)
      × ((slots (oldest_from slots best i left)).serial ≤ (slots best).serial)
      × ((j : ℕ)
          → i ≤ j
          → j < i + left
          → (slots (oldest_from slots best i left)).serial ≤ (slots j).serial)
unfolding oldest_from
oldest_from-least slots best i zero l = (omega arith, omega arith, λ j a b. absurd (omega arith))
oldest_from-least slots best i (suc left) l =
    elim (Bool-cases (ltb (slots i).serial (slots best).serial)) [
      | inl less ↦
          let rest = oldest_from-least slots i (i + 1) left (omega arith) in
          rw (less, oldest_from)
            (
              omega (arith, rest.0),
              omega (arith, rest.1, ltb→lt _ _ less),
              λ j a b. elim (eq-cases i j) [
                | inl here ↦
                    subst
                      (λ x. (slots (oldest_from slots i (i + 1) left)).serial ≤ (slots x).serial)
                      here rest.1
                | inr away ↦ rest.2 j (omega arith) (omega arith)
              ],
            )
      | inr more ↦
          let rest = oldest_from-least slots best (i + 1) left (omega arith) in
          rw (more, oldest_from)
            (
              omega (arith, rest.0),
              omega (arith, rest.1),
              λ j a b. elim (eq-cases i j) [
                | inl here ↦
                    subst
                      (λ x. (slots (oldest_from slots best (i + 1) left)).serial ≤ (slots x).serial)
                      here (omega (arith, rest.1, not_ltb→le _ _ more))
                | inr away ↦ rest.2 j (omega arith) (omega arith)
              ],
            )
    ]

-- The slot that is found has the smallest serial number of all.
pub oldest-least :
    (c : DiskCache)
    → (oldest c < cache_max)
      × ((j : ℕ) → j < cache_max → (c.cache (oldest c)).serial ≤ (c.cache j).serial)
unfolding oldest
oldest-least c =
    let found = oldest_from-least c.cache 0 1 15 (omega arith) in
    (
      found.0,
      λ j l. elim (eq-cases 0 j) [
        | inl here ↦ subst (λ x. (c.cache (oldest c)).serial ≤ (c.cache x).serial) here found.1
        | inr away ↦ found.2 j (omega arith) (omega arith)
      ],
    )

-- What the search for a track finds.
pub holds_track_found :
    (c : DiskCache) (track i : ℕ)
    → holds_track track (c.cache i) ≡ true
    → (t : DiskTrack) × (tracks_of c i ≡ some t) × (t.track_number ≡ track)
holds_track_found c track i h = elim (Option-cases (tracks_of c i)) [
  | inl e ↦ absurd (ground (arith, e, h))
  | inr (t, e) ↦ (t, e, ground (arith, e, h))
]

pub holds_track-Absent :
    (c : DiskCache) (track : ℕ)
    → find_slot (holds_track track) c.cache 0 cache_max ≡ none
    → Absent track (tracks_of c)
holds_track-Absent c track e j u l is_u same =
    let no =
      find_slot-none (holds_track track) c.cache 0 cache_max e j (omega arith) (omega arith) in
    ground (arith, is_u, same, no)
