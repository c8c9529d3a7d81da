-- ===== src/Scsi.antt =====
-- cpp/shared/scsi.h and cpp/shared/s2p_exceptions.h: the SCSI enumerations and the exception
-- that reports a sense key with its additional sense code.
use scsi2pi.Base.{ℕ}

-- enum class BusPhase
pub data BusPhase : Type 0 where
  bus_free arbitration selection reselection command data_in data_out status msg_in msg_out
        reserved :
      BusPhase

-- enum class SenseKey
pub data SenseKey : Type 0 where
  no_sense recovered_error not_ready medium_error hardware_error illegal_request : SenseKey
  unit_attention data_protect blank_check vendor_specific copy_aborted aborted_command : SenseKey
  equal volume_overflow miscompare reserved : SenseKey

-- enum class Asc
pub data Asc : Type 0 where
  no_additional_sense_information write_fault io_process_terminated write_error read_error : Asc
  locate_operation_failure parameter_list_length_error invalid_command_operation_code : Asc
  lba_out_of_range invalid_field_in_cdb logical_unit_not_supported : Asc
  invalid_field_in_parameter_list write_protected not_ready_to_ready_transition : Asc
  power_on_or_reset incompatible_medium_installed sequential_positioning_error : Asc
  medium_not_present internal_target_failure command_phase_error data_phase_error : Asc
  medium_load_or_eject_failed data_currently_unavailable : Asc

-- enum class Ascq
pub data Ascq : Type 0 where
  none filemark_detected end_of_partition_medium_detected : Ascq
  beginning_of_partition_medium_detected end_of_data_detected : Ascq

-- enum class StatusCode
pub data StatusCode : Type 0 where
  good check_condition condition_met busy intermediate intermediate_condition_met : StatusCode
  reservation_conflict command_terminated queue_full aca_active task_aborted : StatusCode

unfoldable pub sense_key_value : SenseKey → ℕ
sense_key_value SenseKey.no_sense = 0x00
sense_key_value SenseKey.recovered_error = 0x01
sense_key_value SenseKey.not_ready = 0x02
sense_key_value SenseKey.medium_error = 0x03
sense_key_value SenseKey.hardware_error = 0x04
sense_key_value SenseKey.illegal_request = 0x05
sense_key_value SenseKey.unit_attention = 0x06
sense_key_value SenseKey.data_protect = 0x07
sense_key_value SenseKey.blank_check = 0x08
sense_key_value SenseKey.vendor_specific = 0x09
sense_key_value SenseKey.copy_aborted = 0x0a
sense_key_value SenseKey.aborted_command = 0x0b
sense_key_value SenseKey.equal = 0x0c
sense_key_value SenseKey.volume_overflow = 0x0d
sense_key_value SenseKey.miscompare = 0x0e
sense_key_value SenseKey.reserved = 0x0f

unfoldable pub asc_value : Asc → ℕ
asc_value Asc.no_additional_sense_information = 0x00
asc_value Asc.write_fault = 0x03
asc_value Asc.io_process_terminated = 0x06
asc_value Asc.write_error = 0x0c
asc_value Asc.read_error = 0x11
asc_value Asc.locate_operation_failure = 0x14
asc_value Asc.parameter_list_length_error = 0x1a
asc_value Asc.invalid_command_operation_code = 0x20
asc_value Asc.lba_out_of_range = 0x21
asc_value Asc.invalid_field_in_cdb = 0x24
asc_value Asc.logical_unit_not_supported = 0x25
asc_value Asc.invalid_field_in_parameter_list = 0x26
asc_value Asc.write_protected = 0x27
asc_value Asc.not_ready_to_ready_transition = 0x28
asc_value Asc.power_on_or_reset = 0x29
asc_value Asc.incompatible_medium_installed = 0x30
asc_value Asc.sequential_positioning_error = 0x38
asc_value Asc.medium_not_present = 0x3a
asc_value Asc.internal_target_failure = 0x44
asc_value Asc.command_phase_error = 0x4a
asc_value Asc.data_phase_error = 0x4b
asc_value Asc.medium_load_or_eject_failed = 0x53
asc_value Asc.data_currently_unavailable = 0x55

unfoldable pub ascq_value : Ascq → ℕ
ascq_value Ascq.none = 0x00
ascq_value Ascq.filemark_detected = 0x01
ascq_value Ascq.end_of_partition_medium_detected = 0x02
ascq_value Ascq.beginning_of_partition_medium_detected = 0x04
ascq_value Ascq.end_of_data_detected = 0x05

unfoldable pub status_value : StatusCode → ℕ
status_value StatusCode.good = 0x00
status_value StatusCode.check_condition = 0x02
status_value StatusCode.condition_met = 0x04
status_value StatusCode.busy = 0x08
status_value StatusCode.intermediate = 0x10
status_value StatusCode.intermediate_condition_met = 0x14
status_value StatusCode.reservation_conflict = 0x18
status_value StatusCode.command_terminated = 0x22
status_value StatusCode.queue_full = 0x28
status_value StatusCode.aca_active = 0x30
status_value StatusCode.task_aborted = 0x40

pub BusPhase-discrete : Discrete BusPhase
BusPhase-discrete = hlevel

-- class ScsiException
pub record ScsiException : Type 0 where
  pub sense_key : SenseKey
  pub asc : Asc
