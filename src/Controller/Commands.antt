-- ===== src/Controller/Commands.antt =====
-- cpp/controllers/controller.cpp: the COMMAND phase and the execution of a command.
use scsi2pi.Base.{
  ℕ, zero, suc, ◌+◌, ◌-◌, ◌/◌, ◌%◌, Bool, true, false, not, ◌&&◌, ◌||◌, ◌==◌, if◌then◌else◌, List,
  ◌++◌, get_or, set, take, drop, replicate,
}
use scsi2pi.Base.Int.{ℤ, pos, negsuc}
use scsi2pi.Scsi.{BusPhase, SenseKey, Asc, StatusCode, sense_key_value, asc_value}
use scsi2pi.Controller.Transfer.{set_current_length, set_transfer_size, reset_offset, overwrite}
use scsi2pi.Controller.State.{
  Bus, Units, State, Answer, answers, raises, Request, no_phase, status, data_out_enforced, data_in,
  data_out,
}
use scsi2pi.Controller.Phases.{
  lines, effective_lun, is_command, enter_status, enter_data_in, enter_data_out, error,
}

abbrev pub inquiry : ℕ
inquiry = 0x12

abbrev pub request_sense : ℕ
request_sense = 0x03

abbrev pub opcode : {D : Type 0} → State D → ℕ
opcode s = get_or s.cdb 0 0

module _ {D : Type 0} (bus : Bus) (units : Units D) where
  abbrev set_length : ℕ → State D → State D
  unfolding set_current_length
  set_length n s = record s { transfer = set_current_length n s.transfer }

  -- StatusPhase, DataInPhase and DataOutPhase of the device.
  unfoldable pub request_phase : Request → State D → State D
  unfolding enter_status enter_data_in enter_data_out set_current_length
  request_phase no_phase s = s
  request_phase status s = enter_status s
  request_phase (data_in n) s = enter_data_in (set_length n s)
  request_phase (data_out n) s = enter_data_out false (set_length n s)
  request_phase data_out_enforced s = enter_data_out true (set_length 0 s)

  -- Dispatch, with the handler of an exception.
  unfoldable pub finish : Answer D Request → State D → State D
  unfolding request_phase error
  finish (answers request t c d) s =
      request_phase request (record s { transfer = t; status = c; units = d })
  finish (raises e t c d) s =
      error bus units e.sense_key e.asc StatusCode.check_condition
        (record s { transfer = t; status = c; units = d })

  -- Execute, once the device is chosen.
  unfoldable pub execute_on : ℕ → State D → State D
  unfolding finish error
  execute_on lun s =
      let sensing = opcode s == request_sense in
      let u = record s {
        status = if sensing then s.status else StatusCode.good;
        units = if sensing then s.units else units.reset_status lun s.units;
      } in
      if units.check_reservation lun u.initiator_id u.cdb u.units
      then finish (units.dispatch lun u.cdb u.transfer u.status u.units) u
      else error bus units SenseKey.illegal_request Asc.no_additional_sense_information
          StatusCode.reservation_conflict u

  unfoldable pub execute : State D → State D
  unfolding execute_on error set_current_length set_transfer_size reset_offset
  execute s =
      let u = record s {
        transfer = set_transfer_size 0 0 (reset_offset (set_current_length 0 s.transfer));
      } in
      if units.is_present u.units (effective_lun u)
      then execute_on (effective_lun u) u
      else if opcode u == inquiry || opcode u == request_sense
      then execute_on 0 u
      else error bus units SenseKey.illegal_request Asc.logical_unit_not_supported
          StatusCode.check_condition u

  unfoldable pub raise_deferred_error : SenseKey → Asc → State D → State D
  unfolding error
  raise_deferred_error k a s =
      error bus units k a StatusCode.check_condition
        (record s { deferred_sense_key = k; deferred_asc = a })

  -- The 18 bytes of ProvideSenseData.
  abbrev pub deferred_sense : SenseKey → Asc → List ℕ
  unfolding sense_key_value asc_value
  deferred_sense k a =
      set (set (set (set (replicate 18 0) 0 0x70) 2 (sense_key_value k)) 7 10) 12 (asc_value a)

  unfoldable pub provide_sense_data : State D → State D
  unfolding enter_data_in set_current_length
  provide_sense_data s =
      let t = set_current_length 18 s.transfer in
      enter_data_in (record s {
        transfer = record t {
          buffer = overwrite (deferred_sense s.deferred_sense_key s.deferred_asc) t.buffer;
        };
        deferred_sense_key = SenseKey.no_sense;
        deferred_asc = Asc.no_additional_sense_information;
      })

  abbrev pub is_pending : SenseKey → Bool
  is_pending SenseKey.no_sense = false
  is_pending _ = true

  abbrev pub phase_error : State D → State D
  unfolding raise_deferred_error
  phase_error s =
      raise_deferred_error SenseKey.aborted_command Asc.command_phase_error
        (record s { rst = true })

  -- Command, once the CDB is complete: the control byte is its last one.
  unfoldable pub start : ℕ → State D → State D
  unfolding raise_deferred_error provide_sense_data execute
  start size s =
      let control = get_or s.cdb (size - 1) 0 in
      let u = record s { linked = control % 2 == 1; flag = control / 2 % 2 == 1 } in
      if u.flag && not u.linked
      then raise_deferred_error SenseKey.illegal_request Asc.invalid_field_in_cdb u
      else if is_pending u.deferred_sense_key && opcode u == request_sense
      then provide_sense_data u
      else execute (record u {
        deferred_sense_key = SenseKey.no_sense;
        deferred_asc = Asc.no_additional_sense_information;
      })

  -- Command, with a positive count of bytes.
  unfoldable pub receive_cdb : ℕ → State D → State D
  unfolding start raise_deferred_error
  receive_cdb count s =
      let size = bus.command_size (get_or s.transfer.buffer 0 0) in
      let u = record s { cdb = take size s.transfer.buffer ++ drop size s.cdb } in
      if count == size then start size u else phase_error u

  -- Command behind the handshake, by its result.
  unfoldable pub receive_command : ℤ → State D → State D
  unfolding receive_cdb raise_deferred_error
  receive_command (pos zero) s =
      raise_deferred_error SenseKey.illegal_request Asc.invalid_command_operation_code s
  receive_command (pos (suc n)) s = receive_cdb (suc n) s
  receive_command (negsuc n) s = phase_error s

  unfoldable pub command : State D → State D
  unfolding receive_command
  command s =
      if is_command s.phase
      then s
      else receive_command (bus.command_count s.handshakes) (record s {
        phase = BusPhase.command;
        signals = lines false true false;
        transfer = record s.transfer {
          buffer = overwrite (bus.command_bytes s.handshakes) s.transfer.buffer;
        };
        handshakes = s.handshakes + 1;
      })
