-- ===== src/Primary/Examples.antt =====
-- A tape drive that has met a filemark.
use scsi2pi.Base.{◌≡◌, ◌↔◌, ◌⊎◌, refl, true, false, replicate, some, none, ◌∷◌, [], arith}
use scsi2pi.Base.Int.{pos}
use scsi2pi.Scsi.{SenseKey, Asc, Ascq, sense_key_value, asc_value, ascq_value}
use scsi2pi.Device
use scsi2pi.Device.{Device}
use scsi2pi.Primary.{Primary, check_reservation, not_reserved}
use scsi2pi.Primary.Sense.{sense_data, parse_sense_data}
use scsi2pi.Primary.Sense.RoundTrip.{parse_sense_data-sense_data}
use scsi2pi.Primary.Reservation.{check_reservation_iff, IsExempt}
use scsi2pi.Primary.Readiness.{checks, flagged, check_ready_reports}

abbrev pub at_filemark : Primary
at_filemark = record {
  device = record Device.initial { ready = true; reset = true; attn = true };
  level = 2;
  response_data_format = 2;
  sense_key = SenseKey.no_sense;
  asc = Asc.no_additional_sense_information;
  eom = Ascq.none;
  valid = true;
  filemark = true;
  ili = false;
  information = pos 3;
  reserving_initiator = pos 5;
}

parse_sense_data-sense_data_example : parse_sense_data (sense_data at_filemark 18) ≡ record {
  sense_key = 0;
  asc = 0;
  ascq = 1;
  details = some (record { eom = false; ili = false; information = pos 3 });
}
unfolding sense_key_value asc_value ascq_value
parse_sense_data-sense_data_example = parse_sense_data-sense_data at_filemark 18 refl (omega arith)

check_ready_reports_example : checks 4 at_filemark ≡ (
  some (record { sense_key = SenseKey.unit_attention; asc = Asc.power_on_or_reset })
      ∷ some
          (record { sense_key = SenseKey.unit_attention; asc = Asc.not_ready_to_ready_transition })
      ∷ none
      ∷ none
      ∷ [],
  flagged false false at_filemark,
)
check_ready_reports_example = check_ready_reports 2 at_filemark

check_reservation_iff_example :
    (check_reservation (pos 4) (replicate 6 0x16) at_filemark ≡ true) ↔ (
      (at_filemark.reserving_initiator ≡ not_reserved)
      ⊎ (at_filemark.reserving_initiator ≡ pos 4)
      ⊎ IsExempt (replicate 6 0x16))
check_reservation_iff_example = check_reservation_iff (pos 4) (replicate 6 0x16) at_filemark
