-- ===== src/Controller/Sending.antt =====
-- cpp/controllers/controller.cpp: sending to the initiator, in the STATUS, MESSAGE IN and DATA IN
-- phases. `none` is a failed assertion.
use scsi2pi.Base.{
  ℕ, ◌+◌, ◌==◌, Bool, true, ltb, ◌||◌, if◌then◌else◌, Option, some, none, ◌++◌, take, drop,
}
use scsi2pi.Scsi.{BusPhase, SenseKey, Asc, StatusCode}
use scsi2pi.Controller.Transfer.{
  Transfer, set_current_length, set_transfer_size, reset_offset, update_transfer_length,
  update_offset_and_length,
}
use scsi2pi.Controller.State.{Bus, Units, State, Answer, answers, raises, chain}
use scsi2pi.Controller.Phases.{
  effective_lun, is_status, is_msg_in, is_data_in, enter_status, enter_msg_in, enter_data_in, error,
  bus_free, reset_flags, front, one_byte,
}
use scsi2pi.Controller.Commands.{command}

-- The byte that ends a command.
abbrev pub message_byte : Bool → Bool → ℕ
message_byte linked flag = if linked then if flag then 0x0b else 0x0a else 0x00

abbrev pub smaller : ℕ → ℕ → ℕ
smaller a b = if ltb a b then a else b

module _ {D : Type 0} (bus : Bus) (units : Units D) where
  unfoldable pub process_end_of_message : State D → State D
  unfolding command bus_free reset_flags
  process_end_of_message s =
      if s.atn_msg || s.linked then command bus units (reset_flags s) else bus_free s

  abbrev next_chunk : Transfer → Transfer
  unfolding set_current_length reset_offset
  next_chunk t =
      if t.remaining_length == 0
      then t
      else reset_offset (set_current_length (smaller t.remaining_length t.chunk_size) t)

  -- TransferToHost, with the device's answer.
  unfoldable pub to_host : Answer D (Unit {0}) → State D → State D
  unfolding set_current_length reset_offset error
  to_host (answers _ t c d) s = record s { transfer = next_chunk t; status = c; units = d }
  to_host (raises e t c d) s =
      error bus units e.sense_key e.asc StatusCode.check_condition
        (record s { transfer = t; status = c; units = d })

  unfoldable pub transfer_to_host : State D → State D
  unfolding to_host
  transfer_to_host s = to_host (units.read_data (effective_lun s) s.transfer s.status s.units) s

  -- All data have been transferred, by the phase.
  unfoldable pub sent_all : BusPhase → State D → Option (State D)
  unfolding process_end_of_message enter_status enter_msg_in set_current_length set_transfer_size
  sent_all BusPhase.msg_in s = some (process_end_of_message s)
  sent_all BusPhase.data_in s = some (enter_status s)
  sent_all BusPhase.status s = some (
      enter_msg_in
        (record s { transfer = front (message_byte s.linked s.flag) (one_byte s.transfer) }))
  sent_all _ s = none

  -- Send, with something to transfer in this handshake.
  unfoldable pub send_bytes : State D → State D
  unfolding update_offset_and_length error
  send_bytes s =
      let n = s.transfer.current_length in
      let u = record s { handshakes = s.handshakes + 1 } in
      if bus.sent s.handshakes n == n
      then record u {
        transfer = update_offset_and_length s.transfer;
        output = s.output ++ take n (drop s.transfer.offset s.transfer.buffer);
      }
      else error bus units SenseKey.aborted_command Asc.data_phase_error StatusCode.check_condition
          (record u { rst = true })

  -- Send, between two handshakes.
  unfoldable pub send_next : State D → Option (State D)
  unfolding update_transfer_length transfer_to_host sent_all
  send_next s = chain (update_transfer_length s.transfer.chunk_size s.transfer) (λ t.
      let u = record s { transfer = t } in
      if t.remaining_length == 0
      then sent_all s.phase u
      else some (if is_data_in s.phase then transfer_to_host u else u))

  unfoldable pub send : State D → Option (State D)
  unfolding send_bytes send_next
  send s = if s.transfer.current_length == 0 then send_next s else some (send_bytes s)

  -- Status, MsgIn and DataIn.
  unfoldable pub status_phase : State D → Option (State D)
  unfolding send enter_status
  status_phase s = if is_status s.phase then send s else some (enter_status s)

  unfoldable pub msg_in : State D → Option (State D)
  unfolding send enter_msg_in
  msg_in s = if is_msg_in s.phase then send s else some (enter_msg_in s)

  unfoldable pub data_in : State D → Option (State D)
  unfolding send enter_data_in
  data_in s = if is_data_in s.phase then send s else some (enter_data_in s)
