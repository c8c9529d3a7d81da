-- ===== src/Controller/Messages.antt =====
-- cpp/controllers/controller.cpp: the messages that the initiator sends.
use scsi2pi.Base.{
  ℕ, ◌%◌, ◌==◌, leb, false, if◌then◌else◌, Option, some, List, [], ◌∷◌, ◌++◌, get_or,
}
use scsi2pi.Controller.Transfer.{set_current_length, set_transfer_size, reset_offset}
use scsi2pi.Controller.State.{Bus, Units, State, chain}
use scsi2pi.Controller.Phases.{effective_lun, bus_free, front, one_byte}
use scsi2pi.Controller.Commands.{command}
use scsi2pi.Controller.Sending.{msg_in}

abbrev pub abort : ℕ
abort = 0x06

abbrev pub bus_device_reset : ℕ
bus_device_reset = 0x0c

abbrev pub message_reject : ℕ
message_reject = 0x07

module _ {D : Type 0} (bus : Bus) (units : Units D) where
  -- XferMsg
  unfoldable pub xfer_msg : State D → State D
  xfer_msg s = record s {
    msg_bytes =
        if s.atn_msg then s.msg_bytes ++ (get_or s.transfer.buffer 0 0 ∷ []) else s.msg_bytes;
  }

  unfoldable pub reject_extended_message : State D → Option (State D)
  unfolding msg_in set_current_length set_transfer_size
  reject_extended_message s =
      msg_in bus units (record s { transfer = front message_reject (one_byte s.transfer) })

  -- BUS DEVICE RESET
  abbrev pub reset_device : State D → State D
  reset_device s = record s {
    units =
        if units.is_present s.units (effective_lun s)
        then units.reset_unit (effective_lun s) s.units
        else s.units;
  }

  abbrev identify : ℕ → State D → State D
  identify b s = record s {
    identified_lun = if leb 0x80 b then some (b % 32) else s.identified_lun;
  }

  -- The loop of ParseMessage.
  unfoldable pub parse_message : List ℕ → State D → Option (State D)
  unfolding reject_extended_message bus_free
  parse_message [] s = some s
  parse_message (b ∷ bs) s =
      if b == 0x01
      then chain (reject_extended_message s) (λ u. parse_message bs u)
      else if b == abort
      then some (bus_free s)
      else if b == bus_device_reset
      then some (bus_free (reset_device s))
      else parse_message bs (identify b s)

  unfoldable pub process_message : State D → Option (State D)
  unfolding parse_message command set_current_length set_transfer_size reset_offset
  process_message s =
      if s.atn
      then some (record s { transfer = one_byte (reset_offset s.transfer) })
      else if s.atn_msg
      then chain (parse_message s.msg_bytes (record s { atn_msg = false }))
          (λ u. some (command bus units u))
      else some (command bus units s)
