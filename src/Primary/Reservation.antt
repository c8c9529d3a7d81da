-- ===== src/Primary/Reservation.antt =====
-- Who may use a device: CheckReservation of cpp/base/primary_device.cpp.
use scsi2pi.Base.{ℕ, ◌%◌, ◌≡◌, ◌⊎◌, ◌↔◌, true, List, get_or, arith}
use scsi2pi.Base.Int.{ℤ, pos, negsuc}
use scsi2pi.Primary.{
  Primary, check_reservation, ltb_ℤ_eq, not_reserved, inquiry, request_sense, release_6,
  prevent_allow_medium_removal,
}

ltb_ℤ_eq_iff : (a b : ℤ) → (ltb_ℤ_eq a b ≡ true) ↔ (a ≡ b)
unfolding ltb_ℤ_eq
ltb_ℤ_eq_iff (pos a) (pos b) = ground arith
ltb_ℤ_eq_iff (pos a) (negsuc b) = ground arith
ltb_ℤ_eq_iff (negsuc a) (pos b) = ground arith
ltb_ℤ_eq_iff (negsuc a) (negsuc b) = ground arith

abbrev pub IsExempt : List ℕ → Type 0
IsExempt cdb =
    (get_or cdb 0 0 ≡ inquiry)
    ⊎ (get_or cdb 0 0 ≡ request_sense)
    ⊎ (get_or cdb 0 0 ≡ release_6)
    ⊎ ((get_or cdb 0 0 ≡ prevent_allow_medium_removal) × (get_or cdb 4 0 % 2 ≡ 0))

-- A command passes exactly if the device is not reserved, is reserved by the initiator itself, or
-- the command is INQUIRY, REQUEST SENSE, RELEASE(6), or PREVENT ALLOW MEDIUM REMOVAL with the
-- prevent bit clear.
pub check_reservation_iff :
    (initiator_id : ℤ) (cdb : List ℕ) (p : Primary)
    → (check_reservation initiator_id cdb p ≡ true) ↔ (
        (p.reserving_initiator ≡ not_reserved)
        ⊎ (p.reserving_initiator ≡ initiator_id)
        ⊎ IsExempt cdb)
unfolding check_reservation
check_reservation_iff initiator_id cdb p = ground (
  arith,
  ltb_ℤ_eq_iff p.reserving_initiator not_reserved,
  ltb_ℤ_eq_iff p.reserving_initiator initiator_id,
)
