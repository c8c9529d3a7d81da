-- ===== src/Primary/Sense.antt =====
-- cpp/base/primary_device.cpp, HandleRequestSense: the sense data that a device reports; and
-- cpp/shared/s2p_util.cpp, FormatSenseData: the fields that the SCSI tools take from such data.
pub mod RoundTrip
use scsi2pi.Base.{
  ℕ, ◌+◌, ◌*◌, ◌/◌, ◌%◌, ◌^◌, Bool, true, false, not, ◌&&◌, ◌||◌, ltb, leb, ◌==◌, if◌then◌else◌,
  List, Option, none, some, get_or, set, replicate, bit_and, bit_or, done, thrown,
}
use scsi2pi.Base.Int.{ℤ}
use scsi2pi.Base.Words.{to_int32}
use scsi2pi.Memory.{put32, int32_at}
use scsi2pi.Scsi.{ScsiException, SenseKey, Asc, Ascq, sense_key_value, asc_value, ascq_value}
use scsi2pi.Primary.{Primary, Action, to_uint32}

abbrev pub is_no_sense : SenseKey → Bool
is_no_sense SenseKey.no_sense = true
is_no_sense _ = false

-- buf[i] |= mask
abbrev or_byte : ℕ → ℕ → List ℕ → List ℕ
or_byte i mask buf = set buf i (bit_or (get_or buf i 0) mask)

-- In SCSI-1 mode the extended format is used only if more than 4 bytes are requested.
abbrev pub is_extended : Primary → ℕ → Bool
is_extended p requested = leb 2 p.level || ltb 4 requested

unfoldable pub current_error : Bool → List ℕ
current_error extended =
    let buf : List ℕ = replicate 18 0 in if extended then set buf 0 0x70 else buf

unfoldable pub add_information : Bool → Bool → ℤ → List ℕ → List ℕ
add_information extended valid information buf =
    if valid
    then put32 (or_byte 0 0x80 buf) (if extended then 3 else 1) (to_uint32 information)
    else buf

unfoldable pub add_sense : SenseKey → Bool → Asc → List ℕ → List ℕ
add_sense sense_key ili asc buf =
    set (set (set buf 2 (bit_or (sense_key_value sense_key) (if ili then 0x20 else 0x00))) 7 10) 12
      (asc_value asc)

unfoldable pub add_filemark : Bool → List ℕ → List ℕ
add_filemark filemark buf =
    if filemark then set (or_byte 2 0x80 buf) 13 (ascq_value Ascq.filemark_detected) else buf

unfoldable pub add_eom : Ascq → List ℕ → List ℕ
add_eom Ascq.none buf = buf
add_eom eom buf = set (or_byte 2 0x40 buf) 13 (ascq_value eom)

unfoldable pub sense_data : Primary → ℕ → List ℕ
sense_data p requested =
    let extended = is_extended p requested in
    let buf = add_information extended p.valid p.information (current_error extended) in
    add_eom p.eom (add_filemark p.filemark (add_sense p.sense_key p.ili p.asc buf))

-- `requested` is CDB byte 4.
unfoldable pub handle_request_sense : ℕ → Action (List ℕ)
handle_request_sense requested p =
    if is_no_sense p.sense_key && not p.device.ready
    then thrown (record { sense_key = SenseKey.not_ready; asc = Asc.medium_not_present }) p
    else done (sense_data p requested) p

-- What FormatSenseData shows only where the data are valid. The information is signed.
pub record SenseDetails : Type 0 where
  pub eom : Bool
  pub ili : Bool
  pub information : ℤ

-- What FormatSenseData shows.
pub record SenseFields : Type 0 where
  pub sense_key : ℕ
  pub asc : ℕ
  pub ascq : ℕ
  pub details : Option SenseDetails

abbrev pub details_of : Bool → Bool → Bool → ℤ → Option SenseDetails
details_of invalid eom ili information =
    if invalid then none else some (record { eom = eom; ili = ili; information = information })

unfoldable pub parse_sense_data : List ℕ → SenseFields
parse_sense_data buf =
    let flags = get_or buf 2 0 in
    record {
      sense_key = bit_and flags 0x0f;
      asc = get_or buf 12 0;
      ascq = get_or buf 13 0;
      details =
          details_of (bit_and (get_or buf 0 0) 0x80 == 0) (not (bit_and flags 0x40 == 0))
            (not (bit_and flags 0x20 == 0)) (to_int32 (int32_at buf 3));
    }
