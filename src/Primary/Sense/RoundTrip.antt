-- ===== src/Primary/Sense/RoundTrip.antt =====
-- The sense data of a device, read by the tools.
use scsi2pi.Base.{
  Option, none, some, ℕ, ◌^◌, ◌<◌, ◌≡◌, refl, Bool, true, false, not, ◌==◌, if◌then◌else◌, ◌∙◌,
  List, ap, arith, get_or, bit_and, bit_or,
}
use scsi2pi.Base.Int.{ℤ, pos, negsuc}
use scsi2pi.Base.Words.{to_int32}
use scsi2pi.Memory.{int32_at}
use scsi2pi.Scsi.{SenseKey, Asc, Ascq, sense_key_value, asc_value, ascq_value}
use scsi2pi.Primary.{Primary, to_uint32}
use scsi2pi.Primary.Sense.{
  SenseDetails, details_of, sense_data, parse_sense_data, is_extended, current_error,
  add_information, add_sense, add_filemark, add_eom,
}

-- The additional sense code qualifier, by precedence of the end of the medium.
abbrev pub reported_ascq : Bool → Ascq → ℕ
reported_ascq filemark Ascq.none = if filemark then 0x01 else 0x00
reported_ascq filemark eom = ascq_value eom

abbrev pub is_eom : Ascq → Bool
is_eom Ascq.none = false
is_eom _ = true

-- The four parts of the flags byte do not disturb one another.
flags : SenseKey → Bool → Bool → Bool → ℕ
flags k ili filemark eom =
    let a = bit_or (sense_key_value k) (if ili then 0x20 else 0x00) in
    let b = if filemark then bit_or a 0x80 else a in if eom then bit_or b 0x40 else b

-- Bit by bit.
flags_lem :
    (k : SenseKey) (ili filemark eom : Bool)
    → (bit_and (flags k ili filemark eom) 0x0f ≡ sense_key_value k)
      × (not (bit_and (flags k ili filemark eom) 0x40 == 0) ≡ eom)
      × (not (bit_and (flags k ili filemark eom) 0x20 == 0) ≡ ili)
unfolding flags sense_key_value
flags_lem k ili filemark eom = ground arith

to_uint32-lt : (z : ℤ) → to_uint32 z < 2 ^ 32
to_uint32-lt (pos n) = omega arith
to_uint32-lt (negsuc n) = omega arith

-- The bytes that matter, of the finished data.
abbrev Bytes : SenseKey → Bool → Asc → Bool → Ascq → Bool → ℤ → List ℕ → Type 0
Bytes k ili asc filemark eom valid information buf =
    (get_or buf 0 0 ≡ (if valid then 0xf0 else 0x70))
    × (get_or buf 2 0 ≡ flags k ili filemark (is_eom eom))
    × (get_or buf 12 0 ≡ asc_value asc)
    × (get_or buf 13 0 ≡ reported_ascq filemark eom)
    × (int32_at buf 3 ≡ (if valid then to_uint32 information else 0))

sense-Bytes :
    (k : SenseKey) (ili : Bool) (asc : Asc) (filemark : Bool) (eom : Ascq) (valid : Bool) (z : ℤ)
    → Bytes k ili asc filemark eom valid z (
        add_eom eom (
          add_filemark filemark
            (add_sense k ili asc (add_information true valid z (current_error true)))))
unfolding flags current_error add_information add_sense add_filemark add_eom ascq_value
sense-Bytes k ili asc filemark eom true z = ground (arith, to_uint32-lt z)
sense-Bytes k ili asc filemark eom false z = ground arith

-- The flag bit 0x80 of byte 0.
valid_lem : (v : Bool) → (bit_and (if v then 0xf0 else 0x70) 0x80 == 0) ≡ not v
valid_lem true = refl
valid_lem false = refl

-- The value of an int32_t.
abbrev pub IsInt32 : ℤ → Type 0
IsInt32 (pos n) = n < 2 ^ 31
IsInt32 (negsuc n) = n < 2 ^ 31

to_int32-to_uint32 : (z : ℤ) → IsInt32 z → to_int32 (to_uint32 z) ≡ z
to_int32-to_uint32 (pos n) small = ground arith
to_int32-to_uint32 (negsuc n) small = ground arith

-- The end of medium, the incorrect length and the information, of valid sense data only.
abbrev pub shown : Bool → Bool → Bool → ℤ → Option SenseDetails
shown true eom ili z = some (record { eom = eom; ili = ili; information = z })
shown false eom ili z = none

-- The details, where the five parts are known.
details-cases :
    (valid : Bool) (z : ℤ) (invalid eom ili eom1 ili1 : Bool) (n : ℕ)
    → IsInt32 z
    → invalid ≡ not valid
    → eom ≡ eom1
    → ili ≡ ili1
    → n ≡ (if valid then to_uint32 z else 0)
    → details_of invalid eom ili (to_int32 n) ≡ shown valid eom1 ili1 z
details-cases true z invalid eom ili eom1 ili1 n int32 b same_eom same_ili info = λ i.
    details_of (b i) (same_eom i) (same_ili i) ((ap to_int32 info ∙ to_int32-to_uint32 z int32) i)
details-cases false z invalid eom ili eom1 ili1 n int32 b same_eom same_ili info =
    λ i. details_of (b i) (same_eom i) (same_ili i) (to_int32 n)

-- In the extended format FormatSenseData finds the sense key and the additional sense code of the
-- device, and as the qualifier the end of medium condition, else the filemark, else 0. If the device has
-- set an information, an int32_t, FormatSenseData finds it and the EOM and ILI flags, and else none
-- of the three.
pub parse_sense_data-sense_data :
    (p : Primary) (requested : ℕ)
    → is_extended p requested ≡ true
    → IsInt32 p.information
    → parse_sense_data (sense_data p requested) ≡ record {
      sense_key = sense_key_value p.sense_key;
      asc = asc_value p.asc;
      ascq = reported_ascq p.filemark p.eom;
      details = shown p.valid (is_eom p.eom) p.ili p.information;
    }
unfolding sense_data parse_sense_data
parse_sense_data-sense_data p requested e int32 =
    let (b0, b2, b12, b13, info) =
      sense-Bytes p.sense_key p.ili p.asc p.filemark p.eom p.valid p.information in
    let (key, eom, ili) = flags_lem p.sense_key p.ili p.filemark (is_eom p.eom) in
    rw e (λ i. record {
      sense_key = (ap (λ b. bit_and b 0x0f) b2 ∙ key) i;
      asc = b12 i;
      ascq = b13 i;
      details =
          (details-cases p.valid p.information _ _ _ _ _ _ int32
              (ap (λ b. bit_and b 0x80 == 0) b0 ∙ valid_lem p.valid)
              (ap (λ b. not (bit_and b 0x40 == 0)) b2 ∙ eom)
              (ap (λ b. not (bit_and b 0x20 == 0)) b2 ∙ ili) info)
            i;
    })
