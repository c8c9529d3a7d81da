-- ===== src/Controller/Receiving.antt =====
-- cpp/controllers/controller.cpp: receiving from the initiator, in the DATA OUT and MESSAGE OUT
-- phases. `none` is a failed assertion.
use scsi2pi.Base.{
  ℕ, ◌+◌, ◌==◌, Bool, true, false, not, ◌&&◌, ◌||◌, if◌then◌else◌, Option, some, none, List, ◌++◌,
  take, drop, length,
}
use scsi2pi.Scsi.{BusPhase, SenseKey, Asc, StatusCode}
use scsi2pi.Controller.Transfer.{
  Transfer, set_current_length, reset_offset, update_transfer_length, update_offset_and_length,
}
use scsi2pi.Controller.State.{Bus, Units, State, Answer, answers, raises, chain}
use scsi2pi.Controller.Phases.{
  effective_lun, is_msg_out, is_data_out, enter_status, enter_msg_out, enter_data_out, error,
}
use scsi2pi.Controller.Commands.{opcode}
use scsi2pi.Controller.Sending.{smaller}
use scsi2pi.Controller.Messages.{xfer_msg, process_message}

abbrev write_bytes : List ℕ → Transfer → Transfer
write_bytes bs t = record t {
  buffer = take t.offset t.buffer ++ (bs ++ drop (t.offset + length bs) t.buffer);
}

abbrev pub is_mode_select : ℕ → Bool
is_mode_select code = code == 0x15 || code == 0x55

module _ {D : Type 0} (bus : Bus) (units : Units D) where
  -- Receive, with something to transfer in this handshake.
  unfoldable pub receive_bytes : State D → State D
  unfolding update_offset_and_length error
  receive_bytes s =
      let n = s.transfer.current_length in
      let t = write_bytes (bus.received s.handshakes n) s.transfer in
      let u = record s { handshakes = s.handshakes + 1 } in
      if bus.received_count s.handshakes n == n
      then record u { transfer = update_offset_and_length t }
      else error bus units SenseKey.aborted_command Asc.data_phase_error StatusCode.check_condition
          (record u { transfer = t; rst = true })

  -- The end of TransferFromHost.
  unfoldable pub taken : ℕ → State D → Option (State D)
  unfolding update_transfer_length set_current_length reset_offset
  taken n s =
      chain (update_transfer_length n s.transfer)
        (λ t. some (record s { transfer = reset_offset (set_current_length t.chunk_size t) }))

  -- What Receive does with the transfer that the device has taken.
  unfoldable pub after_taken : State D → Option (State D)
  unfolding enter_status
  after_taken s =
      if s.transfer.remaining_length == 0
      then some (enter_status s)
      else if s.transfer.current_length == 0 || not (s.transfer.offset == 0)
      then none
      else some s

  -- TransferFromHost with the device's answer, and the rest of Receive.
  unfoldable pub from_host : Answer D ℕ → State D → Option (State D)
  unfolding taken after_taken error
  from_host (answers n t c d) s =
      chain (taken n (record s { transfer = t; status = c; units = d })) after_taken
  from_host (raises e t c d) s = some (
      error bus units e.sense_key e.asc StatusCode.check_condition
        (record s { transfer = t; status = c; units = d }))

  -- MODE SELECT takes the whole parameter list, whose length is the offset.
  abbrev pub counted : ℕ → Answer D (Unit {0}) → Answer D ℕ
  counted n (answers _ t c d) = answers n t c d
  counted n (raises e t c d) = raises e t c d

  abbrev pub device_takes : ℕ → State D → Answer D ℕ
  device_takes n s =
      let lun = effective_lun s in
      if is_mode_select (opcode s) && not (units.is_scsi_generic s.units lun)
      then counted n (units.mode_select lun s.cdb s.transfer.offset s.transfer s.status s.units)
      else units.write_data lun s.cdb n s.transfer s.status s.units

  -- Receive in the MESSAGE OUT phase, between two handshakes.
  unfoldable pub take_message : ℕ → State D → Option (State D)
  unfolding update_transfer_length xfer_msg process_message
  take_message n s = chain (update_transfer_length n s.transfer) (λ t.
      let u = xfer_msg bus units (record s { transfer = t }) in
      if t.remaining_length == 0
      then process_message bus units u
      else if t.current_length == 0 || not (t.offset == 0)
      then none
      else some u)

  -- Receive, between two handshakes, by the phase.
  unfoldable pub received : BusPhase → ℕ → State D → Option (State D)
  unfolding from_host take_message
  received BusPhase.data_out n s = from_host (device_takes n s) s
  received BusPhase.msg_out n s = take_message n s
  received _ n s = none

  unfoldable pub receive_next : State D → Option (State D)
  unfolding received
  receive_next s = received s.phase (smaller s.transfer.chunk_size s.transfer.remaining_length) s

  unfoldable pub receive : State D → Option (State D)
  unfolding receive_bytes receive_next
  receive s = if s.transfer.current_length == 0 then receive_next s else some (receive_bytes s)

  -- MsgOut and DataOut.
  unfoldable pub msg_out : State D → Option (State D)
  unfolding receive enter_msg_out
  msg_out s = if is_msg_out s.phase then receive s else some (enter_msg_out s)

  unfoldable pub data_out : State D → Option (State D)
  unfolding receive enter_data_out
  data_out s = if is_data_out s.phase then receive s else some (enter_data_out false s)
