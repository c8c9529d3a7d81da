-- ===== src/Primary.antt =====
-- cpp/base/primary_device.h and cpp/base/primary_device.cpp: readiness, sense data and the
-- reservation of a device. A CDB is a list of 16 bytes; the indexes that occur lie within it, so
-- the assertions of GetInt* hold and the model reads through *_at.
pub mod Sense
pub mod Reservation
pub mod Readiness
pub mod Examples
use scsi2pi.Base.{
  ℕ, ◌-◌, ◌^◌, zero, suc, ◌+◌, ◌*◌, ◌%◌, ◌≡◌, Bool, true, false, not, ◌&&◌, ◌||◌, ltb, leb, ◌==◌,
  if◌then◌else◌, List, [], ◌∷◌, get_or, set, replicate, bit_or, done, thrown, Method, Option, none,
  some,
}
use scsi2pi.Base.Int.{ℤ, pos, negsuc}
use scsi2pi.Memory.{put32, int16_at, int24_at, int32_at, int64_at}
use scsi2pi.Device.{Device}
use scsi2pi.Scsi.{ScsiException, SenseKey, Asc, Ascq, sense_key_value, asc_value, ascq_value}

-- The SCSI levels that the code distinguishes by comparisons are numbers: NONE is 0, SCSI_1_CCS
-- is 1, SCSI_2 is 2 and so on up to LAST, which is 10.
pub record Primary : Type 0 where
  pub device : Device
  pub open device use *
  pub level : ℕ
  pub response_data_format : ℕ
  pub sense_key : SenseKey
  pub asc : Asc
  pub eom : Ascq
  pub valid : Bool
  pub filemark : Bool
  pub ili : Bool
  pub information : ℤ
  pub reserving_initiator : ℤ

abbrev pub Action : Type 0 → Type 0
Action A = Method ScsiException Primary A

-- An int32_t as the bit pattern that a cast to uint32_t gives.
abbrev pub to_uint32 : ℤ → ℕ
to_uint32 (pos n) = n % 2 ^ 32
to_uint32 (negsuc n) = 2 ^ 32 - 1 - n % 2 ^ 32

unfoldable pub set_status : SenseKey → Asc → Primary → Primary
set_status s a p = record p { sense_key = s; asc = a }

unfoldable pub reset_status : Primary → Primary
reset_status p = record p {
  sense_key = SenseKey.no_sense;
  asc = Asc.no_additional_sense_information;
  valid = false;
  filemark = false;
  ili = false;
  information = pos 0;
  eom = Ascq.none;
}

unfoldable pub set_filemark : Primary → Primary
set_filemark p = record p { filemark = true }

unfoldable pub set_eom : Ascq → Primary → Primary
set_eom e p = record p { eom = e }

unfoldable pub set_ili : Primary → Primary
set_ili p = record p { ili = true }

unfoldable pub set_information : ℤ → Primary → Primary
set_information v p = record p { information = v; valid = true }

unfoldable pub set_scsi_level : ℕ → Primary → Primary × Bool
set_scsi_level l p = if leb 10 l then (p, false) else (record p { level = l }, true)

unfoldable pub set_response_data_format : ℕ → Primary → Primary × Bool
set_response_data_format l p =
    if l == 0 || ltb 2 l then (p, false) else (record p { response_data_format = l }, true)

abbrev pub not_reserved : ℤ
not_reserved = negsuc 1

unfoldable pub discard_reservation : Primary → Primary
discard_reservation p = record p { reserving_initiator = not_reserved }

-- RESERVE(6), from the initiator that the controller knows.
unfoldable pub reserve : ℤ → Primary → Primary
reserve initiator_id p = record p { reserving_initiator = initiator_id }

unfoldable pub reset : Primary → Primary
unfolding discard_reservation
reset p =
    let q = discard_reservation p in
    record q { device = record q.device { reset = false; attn = false; locked = false } }

unfoldable pub check_ready : Action (Unit {0})
check_ready p =
    if p.device.reset
    then thrown (record { sense_key = SenseKey.unit_attention; asc = Asc.power_on_or_reset })
        (record p { device = record p.device { reset = false } })
    else if p.device.attn
    then thrown
        (record { sense_key = SenseKey.unit_attention; asc = Asc.not_ready_to_ready_transition })
        (record p { device = record p.device { attn = false } })
    else if not p.device.ready
    then thrown (record { sense_key = SenseKey.not_ready; asc = Asc.medium_not_present }) p
    else done tt p

ltb_ℤ_eq : ℤ → ℤ → Bool
ltb_ℤ_eq (pos a) (pos b) = a == b
ltb_ℤ_eq (negsuc a) (negsuc b) = a == b
ltb_ℤ_eq (pos a) (negsuc b) = false
ltb_ℤ_eq (negsuc a) (pos b) = false

-- The commands that CheckReservation knows, by their operation codes.
abbrev pub inquiry : ℕ
inquiry = 0x12

abbrev pub request_sense : ℕ
request_sense = 0x03

abbrev pub release_6 : ℕ
release_6 = 0x17

abbrev pub prevent_allow_medium_removal : ℕ
prevent_allow_medium_removal = 0x1e

-- Whether the command in the CDB may proceed. The call of Error before the last return, which reports
-- RESERVATION CONFLICT, is made by the model of the controller.
unfoldable pub check_reservation : ℤ → List ℕ → Primary → Bool
unfolding ltb_ℤ_eq
check_reservation initiator_id cdb p =
    if ltb_ℤ_eq p.reserving_initiator not_reserved || ltb_ℤ_eq p.reserving_initiator initiator_id
    then true
    else let cmd = get_or cdb 0 0 in
      if cmd == inquiry || cmd == request_sense || cmd == release_6
      then true
      else if cmd == prevent_allow_medium_removal && get_or cdb 4 0 % 2 == 0
      then true
      else false
