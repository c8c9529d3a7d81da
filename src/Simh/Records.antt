-- ===== src/Simh/Records.antt =====
-- A record that WriteGoodData wrote, seen by ReadMetaData.
use scsi2pi.Base.{
  ℕ, zero, suc, ◌+◌, ◌/◌, ◌%◌, ◌^◌, ◌<◌, ◌≤◌, ◌≡◌, inl, refl, List, [], ◌∷◌, arith, ◌∙◌, ap, get_or,
  true, some, length, take,
}
use mathlib.Core.Path.{ap₂}
use scsi2pi.File.{
  ImageFile, IsSound, bytes, can_read, write, at-write_in, at-write_out, write-IsSound,
}
use scsi2pi.Simh.{
  SimhClass, class_value, SimhMetaData, from_little_endian, to_little_endian, length_bytes, pad,
  read_meta_data, write_good_data, end_of_medium,
}
use scsi2pi.Simh.Codec.{from_little_endian-to_little_endian}

abbrev pub good_data : ℕ → SimhMetaData
good_data length = record { cls = SimhClass.tape_mark_good_data_record; value = length }

length_bytes_lem : (n : ℕ) → n < 2 ^ 28 → from_little_endian (length_bytes n) ≡ good_data n
unfolding to_little_endian class_value from_little_endian
length_bytes_lem n h =
    let e : n / 2 ^ 24 % 2 ^ 8 ≡ n / 2 ^ 24 % 16 + 0 = omega arith in
    rw e (from_little_endian-to_little_endian (good_data n) h)

-- Meta data that stand in the file are read.
pub read_meta_data_there :
    (f : ImageFile) (p n : ℕ)
    → IsSound f
    → n < 2 ^ 28
    → p + 4 ≤ f.size
    → f.at p ≡ n % 2 ^ 8
    → f.at (p + 1) ≡ n / 2 ^ 8 % 2 ^ 8
    → f.at (p + 1 + 1) ≡ n / 2 ^ 16 % 2 ^ 8
    → f.at (p + 1 + 1 + 1) ≡ n / 2 ^ 24 % 2 ^ 8
    → read_meta_data f p ≡ some (good_data n)
unfolding read_meta_data
read_meta_data_there f p n sound small fits a b c d =
    let there : can_read f p 4 ≡ true = ground (arith, sound.reads p 4) in
    rw (there, a, b, c, d) (ap some (length_bytes_lem n small))

at_sum : (f : ImageFile) (p i q v : ℕ) → p + i ≡ q → f.at (p + i) ≡ v → f.at q ≡ v
at_sum f p i q v e h = rw e at h

bytes-eq-take :
    (f : ImageFile) (p n : ℕ) (values : List ℕ)
    → n ≤ length values
    → ((i : ℕ) → i < n → f.at (p + i) ≡ get_or values i 0)
    → bytes f p n ≡ take n values
bytes-eq-take f p zero values h e = refl
bytes-eq-take f p (suc n) [] h e = absurd (omega arith)
bytes-eq-take f p (suc n) (v ∷ vs) h e =
    ap₂ ◌∷◌ (at_sum f p 0 p v (omega arith) (e 0 (omega arith))) (
      bytes-eq-take f (p + 1) n vs (omega arith) (λ i lt.
        at_sum f p (suc i) (p + 1 + i) (get_or vs i 0) (omega arith) (e (suc i) (omega arith))))

module _ (f : ImageFile) (p : ℕ) (values : List ℕ) (n : ℕ) where
  -- The file after each of the three transfers.
  abbrev leading : ImageFile
  leading = write f p 4 (λ i. get_or (length_bytes n) i 0)

  abbrev with_data : ImageFile
  with_data = write leading (p + 4) n (λ i. get_or values i 0)

  appended : ImageFile
  appended = write with_data (p + 4 + n) 4 (λ i. get_or (length_bytes n) i 0)

  write_good_data_lem : IsSound f → write_good_data f p values n ≡ (appended, true)
  unfolding write_good_data appended write
  write_good_data_lem sound =
      rw (sound.writes p 4, sound.writes (p + 4) n, sound.writes (p + 4 + n) 4)

  appended-IsSound : IsSound f → IsSound appended
  unfolding appended
  appended-IsSound sound =
      write-IsSound with_data _ _ _ (write-IsSound leading _ _ _ (write-IsSound f _ _ _ sound))

  size-appended : (p + n + 8 ≤ appended.size) × (f.size ≤ appended.size)
  unfolding appended write
  size-appended = ground arith

  size-appended_end : p ≡ f.size → appended.size ≡ p + n + 8
  unfolding appended write
  size-appended_end = ground arith

  at-leading : (i : ℕ) → i < 4 → appended.at (p + i) ≡ get_or (length_bytes n) i 0
  unfolding appended
  at-leading i h =
      at-write_out with_data (p + 4 + n) 4 _ (p + i) (inl (omega arith))
        (unfold write in ground arith)
      ∙ (at-write_out leading (p + 4) n _ (p + i) (inl (omega arith))
          (unfold write in ground arith))
      ∙ (at-write_in f p 4 _ (p + i) (omega arith) (omega arith))
      ∙ ap (λ k. get_or (length_bytes n) k 0) (omega arith)

  at-data : (i : ℕ) → i < n → appended.at (p + 4 + i) ≡ get_or values i 0
  unfolding appended
  at-data i h =
      at-write_out with_data (p + 4 + n) 4 _ (p + 4 + i) (inl (omega arith))
        (unfold write in ground arith)
      ∙ (at-write_in leading (p + 4) n _ (p + 4 + i) (omega arith) (omega arith))
      ∙ ap (λ k. get_or values k 0) (omega arith)

  at-trailing : (i : ℕ) → i < 4 → appended.at (p + 4 + n + i) ≡ get_or (length_bytes n) i 0
  unfolding appended
  at-trailing i h =
      at-write_in with_data (p + 4 + n) 4 _ (p + 4 + n + i) (omega arith) (omega arith)
      ∙ ap (λ k. get_or (length_bytes n) k 0) (omega arith)

-- Where the system refuses nothing and the length fits 28 bits, WriteGoodData succeeds. ReadMetaData
-- then finds the record's length before the data and again directly behind them, and the data
-- between are those that were given.
pub write_good_data_record :
    (f : ImageFile) (p : ℕ) (values : List ℕ) (n : ℕ)
    → IsSound f
    → n < 2 ^ 28
    → n ≤ length values
    → (out : ImageFile) × (write_good_data f p values n ≡ (out, true))
      × (read_meta_data out p ≡ some (good_data n))
      × (bytes out (p + 4) n ≡ take n values)
      × (read_meta_data out (p + 4 + n) ≡ some (good_data n))
write_good_data_record f p values n sound small enough =
    let out = appended f p values n in
    let ok = appended-IsSound f p values n sound in
    let size = size-appended f p values n in
    let lead = at-leading f p values n in
    let trail = at-trailing f p values n in
    (
      out,
      write_good_data_lem f p values n sound,
      read_meta_data_there out p n ok small (omega arith)
          (at_sum out p 0 p _ (omega arith) (lead 0 (omega arith))) (lead 1 (omega arith))
          (at_sum out p 2 _ _ (omega arith) (lead 2 (omega arith)))
          (at_sum out p 3 _ _ (omega arith) (lead 3 (omega arith))),
      bytes-eq-take out (p + 4) n values enough (at-data f p values n),
      read_meta_data_there out (p + 4 + n) n ok small (omega arith)
          (at_sum out (p + 4 + n) 0 _ _ (omega arith) (trail 0 (omega arith)))
          (trail 1 (omega arith))
          (at_sum out (p + 4 + n) 2 _ _ (omega arith) (trail 2 (omega arith)))
          (at_sum out (p + 4 + n) 3 _ _ (omega arith) (trail 3 (omega arith))),
    )

-- A reader skips the data padded to an even length, but WriteGoodData writes no padding: behind a
-- record of odd length that is written at the end of the file ReadMetaData finds no length but the
-- end of medium. The system refuses no transfer.
pub write_good_data_odd :
    (f : ImageFile) (values : List ℕ) (n : ℕ)
    → IsSound f
    → n % 2 ≡ 1
    → read_meta_data (write_good_data f f.size values n).0 (f.size + 4 + pad n)
      ≡ some (record { cls = SimhClass.reserverd_marker; value = end_of_medium })
unfolding read_meta_data pad
write_good_data_odd f values n sound odd =
    rw (write_good_data_lem f f.size values n sound)
      (ground (arith, size-appended_end f f.size values n refl))
