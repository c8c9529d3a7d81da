-- ===== src/Controller/Aborts.antt =====
-- What follows an ABORT message: ParseMessage releases the bus, and ProcessMessage goes on.
use scsi2pi.Base.{
  ℕ, zero, suc, ◌+◌, ◌≡◌, refl, Bool, true, false, if◌then◌else◌, in_branches, some, List, ◌∷◌,
}
use scsi2pi.Base.Int.{ℤ, pos, negsuc}
use scsi2pi.Scsi.{BusPhase, SenseKey, Asc, StatusCode}
use scsi2pi.Controller.State.{
  Bus, Units, State, Answer, answers, raises, Request, no_phase, status, data_out_enforced, data_in,
  data_out,
}
use scsi2pi.Controller.Phases.{
  enter_status, enter_data_in, enter_data_out, bus_free, release, error,
}
use scsi2pi.Controller.Commands.{
  request_phase, finish, execute_on, execute, raise_deferred_error, provide_sense_data, start,
  receive_cdb, receive_command, command,
}
use scsi2pi.Controller.Messages.{abort, parse_message, process_message}

-- In the COMMAND phase with BSY inactive, after h handshakes; and without regard to the phase.
record Entered (h : ℕ) (p : BusPhase) (busy : Bool) (n : ℕ) : Type 0 where
  at : p ≡ BusPhase.command
  released : busy ≡ false
  count : n ≡ h

record Released (h : ℕ) (busy : Bool) (n : ℕ) : Type 0 where
  released : busy ≡ false
  count : n ≡ h

abbrev IsEntered : {D : Type 0} → ℕ → State D → Type 0
IsEntered h s = Entered h s.phase s.bsy s.handshakes

abbrev IsReleased : {D : Type 0} → ℕ → State D → Type 0
IsReleased h s = Released h s.bsy s.handshakes

in_branches-IsReleased :
    {D : Type 0} (h : ℕ) (b : Bool) (x y : State D)
    → IsReleased h x
    → IsReleased h y
    → IsReleased h (if b then x else y)
in_branches-IsReleased h b x y p q = in_branches (IsReleased h) p q b

module _ {D : Type 0} (h : ℕ) (s : State D) where
  enter_status-IsReleased : IsEntered h s → IsReleased h (enter_status s)
  unfolding enter_status
  enter_status-IsReleased e = record { released = e.released; count = e.count }

  entered-IsReleased : IsEntered h s → IsReleased h s
  entered-IsReleased e = record { released = e.released; count = e.count }

  enter_data_in-IsReleased : IsEntered h s → IsReleased h (enter_data_in s)
  unfolding enter_data_in
  enter_data_in-IsReleased e = search (in_branches-IsReleased, enter_status-IsReleased)

  enter_data_out-IsReleased :
      (enforced : Bool) → IsEntered h s → IsReleased h (enter_data_out enforced s)
  unfolding enter_data_out
  enter_data_out-IsReleased enforced e = search (in_branches-IsReleased, enter_status-IsReleased)

  release-IsReleased : IsEntered h s → IsReleased h (release s)
  unfolding release
  release-IsReleased e = record { released = refl; count = e.count }

  bus_free-IsReleased : IsEntered h s → IsReleased h (bus_free s)
  unfolding bus_free
  bus_free-IsReleased e = rw e.at (release-IsReleased e)

module _ {D : Type 0} (bus : Bus) (units : Units D) (h : ℕ) where
  error-IsReleased :
      (k : SenseKey) (a : Asc) (c : StatusCode) (s : State D)
      → IsEntered h s
      → IsReleased h (error bus units k a c s)
  unfolding error
  error-IsReleased k a c s e =
      search (in_branches-IsReleased, bus_free-IsReleased, enter_status-IsReleased)

  request_phase-IsReleased :
      (r : Request) (s : State D) → IsEntered h s → IsReleased h (request_phase bus units r s)
  unfolding request_phase
  request_phase-IsReleased no_phase s e = entered-IsReleased h s e
  request_phase-IsReleased status s e = enter_status-IsReleased h s e
  request_phase-IsReleased (data_in n) s e = search enter_data_in-IsReleased
  request_phase-IsReleased (data_out n) s e = search enter_data_out-IsReleased
  request_phase-IsReleased data_out_enforced s e = search enter_data_out-IsReleased

  finish-IsReleased :
      (a : Answer D Request) (s : State D) → IsEntered h s → IsReleased h (finish bus units a s)
  unfolding finish
  finish-IsReleased (answers r t c d) s e = search request_phase-IsReleased
  finish-IsReleased (raises x t c d) s e = search error-IsReleased

  execute_on-IsReleased :
      (lun : ℕ) (s : State D) → IsEntered h s → IsReleased h (execute_on bus units lun s)
  unfolding execute_on
  execute_on-IsReleased lun s e =
      search (in_branches-IsReleased, finish-IsReleased, error-IsReleased)

  execute-IsReleased : (s : State D) → IsEntered h s → IsReleased h (execute bus units s)
  unfolding execute
  execute-IsReleased s e = search (in_branches-IsReleased, execute_on-IsReleased, error-IsReleased)

  raise_deferred_error-IsReleased :
      (k : SenseKey) (a : Asc) (s : State D)
      → IsEntered h s
      → IsReleased h (raise_deferred_error bus units k a s)
  unfolding raise_deferred_error
  raise_deferred_error-IsReleased k a s e = search error-IsReleased

  provide_sense_data-IsReleased :
      (s : State D) → IsEntered h s → IsReleased h (provide_sense_data bus units s)
  unfolding provide_sense_data
  provide_sense_data-IsReleased s e = search enter_data_in-IsReleased

  start-IsReleased :
      (size : ℕ) (s : State D) → IsEntered h s → IsReleased h (start bus units size s)
  unfolding start
  start-IsReleased size s e = search (
    in_branches-IsReleased, raise_deferred_error-IsReleased, provide_sense_data-IsReleased,
    execute-IsReleased,
  )

  receive_cdb-IsReleased :
      (n : ℕ) (s : State D) → IsEntered h s → IsReleased h (receive_cdb bus units n s)
  unfolding receive_cdb
  receive_cdb-IsReleased n s e =
      search (in_branches-IsReleased, start-IsReleased, raise_deferred_error-IsReleased)

  receive_command-IsReleased :
      (n : ℤ) (s : State D) → IsEntered h s → IsReleased h (receive_command bus units n s)
  unfolding receive_command
  receive_command-IsReleased (pos zero) s e = search raise_deferred_error-IsReleased
  receive_command-IsReleased (pos (suc n)) s e = search receive_cdb-IsReleased
  receive_command-IsReleased (negsuc n) s e = search raise_deferred_error-IsReleased

module _ {D : Type 0} (bus : Bus) (units : Units D) (s : State D) where
  -- Command, called with the bus free.
  command-IsReleased : IsReleased (s.handshakes + 1) (command bus units (release s))
  unfolding command release
  command-IsReleased =
      receive_command-IsReleased bus units (s.handshakes + 1) (bus.command_count s.handshakes) _
        (record { at = refl; released = refl; count = refl })

-- When the last byte of an ABORT message has come in and ATN is inactive, ProcessMessage frees the
-- bus and then runs a command handshake all the same: BSY is inactive when it is done.
pub abort_enters_command :
    {D : Type 0} (bus : Bus) (units : Units D) (s : State D) (bs : List ℕ)
    → s.phase ≡ BusPhase.msg_out
    → s.atn ≡ false
    → s.atn_msg ≡ true
    → s.msg_bytes ≡ abort ∷ bs
    → (u : State D) × (process_message bus units s ≡ some u)
      × (u.bsy ≡ false)
      × (u.handshakes ≡ s.handshakes + 1)
unfolding process_message parse_message bus_free
abort_enters_command bus units s bs at quiet pending message =
    let left = command-IsReleased bus units (record s { atn_msg = false }) in
    (
      command bus units (release (record s { atn_msg = false })),
      rw (quiet, pending, message, at) refl,
      left.released,
      left.count,
    )
