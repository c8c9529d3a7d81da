-- ===== src/Controller/Process.antt =====
-- cpp/controllers/controller.cpp, phase_handler.cpp and abstract_controller.cpp: one call of Process,
-- and the loop over it until the bus is free.
use scsi2pi.Base.{ℕ, zero, suc, Bool, true, false, not, ◌&&◌, if◌then◌else◌, Option, some, none}
use scsi2pi.Scsi.{BusPhase, SenseKey, Asc, StatusCode}
use scsi2pi.Controller.State.{Bus, Units, State, chain}
use scsi2pi.Controller.Phases.{
  is_bus_free, is_selection, bus_free, enter_selection, enter_msg_out, error, reset,
}
use scsi2pi.Controller.Commands.{command}
use scsi2pi.Controller.Sending.{status_phase, msg_in, data_in}
use scsi2pi.Controller.Receiving.{msg_out, data_out}

-- The initiator's lines, as Process samples them.
pub record Sample : Type 0 where
  pub rst : Bool
  pub sel : Bool
  pub atn : Bool

abbrev pub executed : {D : Type 0} → Option (State D) → Option (State D × Bool)
executed none = none
executed (some s) = some (s, true)

module _ {D : Type 0} (bus : Bus) (units : Units D) where
  unfoldable pub selection : State D → State D
  unfolding enter_selection enter_msg_out command
  selection s =
      if not (is_selection s.phase)
      then enter_selection s
      else if not s.sel && s.bsy
      then if s.atn then enter_msg_out s else command bus units s
      else s

  -- The table of PhaseHandler::Init. The flag is what the executor returns.
  unfoldable pub execute_phase : BusPhase → State D → Option (State D × Bool)
  unfolding bus_free selection command status_phase msg_in data_in msg_out data_out
  execute_phase BusPhase.bus_free s = some (bus_free s, true)
  execute_phase BusPhase.selection s = some (selection s, true)
  execute_phase BusPhase.command s = some (command bus units s, true)
  execute_phase BusPhase.data_in s = executed (data_in bus units s)
  execute_phase BusPhase.data_out s = executed (data_out bus units s)
  execute_phase BusPhase.status s = executed (status_phase bus units s)
  execute_phase BusPhase.msg_in s = executed (msg_in bus units s)
  execute_phase BusPhase.msg_out s = executed (msg_out bus units s)
  execute_phase _ s = some (s, false)

  abbrev pub sampled : Sample → State D → State D
  sampled lines s = record s { rst = lines.rst; sel = lines.sel; atn = lines.atn }

  unfoldable pub concluded : Bool → State D → State D × Bool
  unfolding error
  concluded true u = (u, not (is_bus_free u.phase))
  concluded false u = (
    error bus units SenseKey.aborted_command Asc.internal_target_failure StatusCode.check_condition
        u,
    false,
  )

  -- Process: the new state, and whether the bus is still in use.
  unfoldable pub process : Sample → State D → Option (State D × Bool)
  unfolding execute_phase reset concluded
  process lines s =
      if lines.rst
      then some (reset bus units s, false)
      else chain (execute_phase s.phase (sampled lines s)) (λ (u, known). some (concluded known u))

  -- The lines that the n-th call of Process samples.
  unfoldable pub run : ℕ → (ℕ → Sample) → State D → Option (State D × Bool)
  unfolding process
  run zero lines s = some (s, true)
  run (suc n) lines s =
      chain (process (lines zero) s)
        (λ (u, busy). if busy then run n (λ i. lines (suc i)) u else some (u, false))
