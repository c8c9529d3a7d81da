-- ===== src/Controller/Wired.antt =====
-- MSG, C/D and I/O follow the phase.
pub mod Steps
pub mod Run
use scsi2pi.Base.{
  ℕ, zero, suc, ◌+◌, ◌-◌, ◌≡◌, refl, sym, ◌∙◌, ap, ◌⊎◌, inl, inr, arith, Bool, true, false, not,
  ◌&&◌, ◌||◌, ◌==◌, if◌then◌else◌, Bool-cases, in_branches, Option, some, none, Option-cases, List,
  [], ◌∷◌,
}
use scsi2pi.Base.Int.{ℤ, pos, negsuc}
use scsi2pi.Scsi.{BusPhase, SenseKey, Asc, StatusCode, ScsiException}
use scsi2pi.Controller.Transfer.{update_transfer_length}
use scsi2pi.Controller.State.{
  Signals, Bus, Units, State, Answer, answers, raises, Request, no_phase, status, data_out_enforced,
  data_in, data_out,
}
use scsi2pi.Controller.Phases.{
  lines, enter_status, enter_msg_in, enter_msg_out, enter_data_in, enter_data_out, enter_selection,
  release, bus_free, reset_flags, reset, error, is_command, is_selection, is_bus_free,
  effective_lun,
}
use scsi2pi.Controller.Commands.{
  request_phase, finish, execute_on, execute, raise_deferred_error, provide_sense_data, start,
  receive_cdb, receive_command, command,
}

-- The phases as the bus encodes them. The bus is free and the target is selected with no line active.
abbrev pub wiring : BusPhase → Signals
wiring BusPhase.command = lines false true false
wiring BusPhase.data_in = lines false false true
wiring BusPhase.data_out = lines false false false
wiring BusPhase.status = lines false true true
wiring BusPhase.msg_in = lines true true true
wiring BusPhase.msg_out = lines true true false
wiring _ = lines false false false

pub record Agrees (p : BusPhase) (g : Signals) : Type 0 where
  pub wired : g ≡ wiring p

abbrev pub IsWired : {D : Type 0} → State D → Type 0
IsWired s = Agrees s.phase s.signals

module _ {D : Type 0} (s : State D) where
  pub enter_status-IsWired : IsWired (enter_status s)
  unfolding enter_status
  enter_status-IsWired = record { wired = refl }

  pub enter_msg_in-IsWired : IsWired (enter_msg_in s)
  unfolding enter_msg_in
  enter_msg_in-IsWired = record { wired = refl }

  pub enter_msg_out-IsWired : IsWired (enter_msg_out s)
  unfolding enter_msg_out
  enter_msg_out-IsWired = record { wired = refl }

  pub enter_data_in-IsWired : IsWired (enter_data_in s)
  unfolding enter_data_in
  enter_data_in-IsWired = elim (Bool-cases (s.transfer.current_length == 0)) [
    | inl e ↦ rw e enter_status-IsWired
    | inr e ↦ rw e (record { wired = refl })
  ]

  pub enter_data_out-IsWired : (enforced : Bool) → IsWired (enter_data_out enforced s)
  unfolding enter_data_out
  enter_data_out-IsWired enforced =
      elim (Bool-cases (not enforced && s.transfer.current_length == 0)) [
        | inl e ↦ rw e enter_status-IsWired
        | inr e ↦ rw e (record { wired = refl })
      ]

  pub enter_selection-IsWired : s.signals ≡ lines false false false → IsWired (enter_selection s)
  unfolding enter_selection
  enter_selection-IsWired free = record { wired = free }

  pub bus_free-IsWired : IsWired s → IsWired (bus_free s)
  unfolding bus_free release enter_selection
  bus_free-IsWired w = record { wired = ground (arith, w.wired) }

if_both-IsWired :
    {D : Type 0} (b : Bool) (x y : State D) → IsWired x → IsWired y → IsWired (if b then x else y)
if_both-IsWired b x y p q = in_branches IsWired p q b

module _ {D : Type 0} (bus : Bus) (units : Units D) where
  pub error-IsWired :
      (k : SenseKey) (a : Asc) (c : StatusCode) (s : State D)
      → IsWired s
      → IsWired (error bus units k a c s)
  unfolding error
  error-IsWired k a c s w = search (if_both-IsWired, bus_free-IsWired, enter_status-IsWired)

  pub reset-IsWired : (s : State D) → IsWired (reset bus units s)
  unfolding reset
  reset-IsWired s = record { wired = refl }

  request_phase-IsWired :
      (r : Request) (s : State D) → IsWired s → IsWired (request_phase bus units r s)
  unfolding request_phase
  request_phase-IsWired no_phase s w = w
  request_phase-IsWired status s w = enter_status-IsWired s
  request_phase-IsWired (data_in n) s w = search enter_data_in-IsWired
  request_phase-IsWired (data_out n) s w = search enter_data_out-IsWired
  request_phase-IsWired data_out_enforced s w = search enter_data_out-IsWired

  finish-IsWired : (a : Answer D Request) (s : State D) → IsWired s → IsWired (finish bus units a s)
  unfolding finish
  finish-IsWired (answers r t c d) s w = search request_phase-IsWired
  finish-IsWired (raises e t c d) s w = search error-IsWired

  execute_on-IsWired : (lun : ℕ) (s : State D) → IsWired s → IsWired (execute_on bus units lun s)
  unfolding execute_on
  execute_on-IsWired lun s w = search (if_both-IsWired, finish-IsWired, error-IsWired)

  execute-IsWired : (s : State D) → IsWired s → IsWired (execute bus units s)
  unfolding execute
  execute-IsWired s w = search (if_both-IsWired, execute_on-IsWired, error-IsWired)

  raise_deferred_error-IsWired :
      (k : SenseKey) (a : Asc) (s : State D)
      → IsWired s
      → IsWired (raise_deferred_error bus units k a s)
  unfolding raise_deferred_error
  raise_deferred_error-IsWired k a s w = search error-IsWired

  provide_sense_data-IsWired : (s : State D) → IsWired (provide_sense_data bus units s)
  unfolding provide_sense_data
  provide_sense_data-IsWired s = search enter_data_in-IsWired

  start-IsWired : (size : ℕ) (s : State D) → IsWired s → IsWired (start bus units size s)
  unfolding start
  start-IsWired size s w =
      search
        (if_both-IsWired, raise_deferred_error-IsWired, provide_sense_data-IsWired, execute-IsWired)

  receive_cdb-IsWired : (n : ℕ) (s : State D) → IsWired s → IsWired (receive_cdb bus units n s)
  unfolding receive_cdb
  receive_cdb-IsWired n s w = search (if_both-IsWired, start-IsWired, raise_deferred_error-IsWired)

  receive_command-IsWired :
      (n : ℤ) (s : State D) → IsWired s → IsWired (receive_command bus units n s)
  unfolding receive_command
  receive_command-IsWired (pos zero) s w = search raise_deferred_error-IsWired
  receive_command-IsWired (pos (suc n)) s w = search receive_cdb-IsWired
  receive_command-IsWired (negsuc n) s w = search raise_deferred_error-IsWired

  command_wiring : Agrees BusPhase.command (lines false true false)
  command_wiring = record { wired = refl }

  pub command-IsWired : (s : State D) → IsWired s → IsWired (command bus units s)
  unfolding command
  command-IsWired s w = search (if_both-IsWired, receive_command-IsWired, command_wiring)
