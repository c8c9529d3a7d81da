-- ===== src/Controller/Wired/Run.antt =====
-- The lines agree with the phase along a whole run.
use scsi2pi.Base.{
  ℕ, zero, suc, ◌≡◌, refl, subst, ap, ◌∙◌, Bool, true, false, if◌then◌else◌, in_branches, Option,
  some, none,
}
use scsi2pi.Scsi.{BusPhase}
use scsi2pi.Controller.Phases.{lines}
use scsi2pi.Controller.State.{Bus, Units, State, chain}
use scsi2pi.Controller.Process.{
  Sample, selection, execute_phase, process, run, executed, sampled, concluded,
}
use scsi2pi.Controller.Wired.{
  IsWired, wiring, enter_msg_out-IsWired, enter_selection-IsWired, bus_free-IsWired,
  if_both-IsWired, error-IsWired, reset-IsWired, command-IsWired,
}
use scsi2pi.Controller.Wired.Steps.{
  After, stopped, left, status_phase-After, msg_in-After, data_in-After, msg_out-After,
  data_out-After,
}

-- The states that a call can leave, with the flag.
data Ends {D : Type 0} : Option (State D × Bool) → Type 0 where
  failed : Ends none
  ended : (s : State D) (b : Bool) → IsWired s → Ends (some (s, b))

if_both-Ends :
    {D : Type 0} (b : Bool) (x y : Option (State D × Bool))
    → Ends x
    → Ends y
    → Ends (if b then x else y)
if_both-Ends b x y p q = in_branches Ends p q b

executed-Ends : {D : Type 0} (o : Option (State D)) → After o → Ends (executed o)
executed-Ends _ stopped = failed
executed-Ends _ (left s w) = ended s true w

chain-Ends :
    {D : Type 0} (o : Option (State D × Bool)) (f : State D × Bool → Option (State D × Bool))
    → Ends o
    → ((s : State D) (b : Bool) → IsWired s → Ends (f (s, b)))
    → Ends (chain o f)
chain-Ends _ f failed next = failed
chain-Ends _ f (ended s b w) next = next s b w

Ends-state : {D : Type 0} (s : State D) (b : Bool) → Ends (some (s, b)) → IsWired s
Ends-state _ _ (ended s b w) = w

module _ {D : Type 0} (bus : Bus) (units : Units D) where
  selection-IsWired :
      (s : State D)
      → IsWired s
      → s.signals ≡ lines false false false
      → IsWired (selection bus units s)
  unfolding selection
  selection-IsWired s w free =
      search (if_both-IsWired, enter_selection-IsWired, enter_msg_out-IsWired, command-IsWired)

  concluded-Ends : (s : State D) (b : Bool) → IsWired s → Ends (some (concluded bus units b s))
  unfolding concluded
  concluded-Ends s true w = ended s _ w
  concluded-Ends s false w = search (ended, error-IsWired)

  -- `p` is the phase before the call.
  execute_phase-Ends :
      (p : BusPhase) (s : State D) → IsWired s → s.phase ≡ p → Ends (execute_phase bus units p s)
  unfolding execute_phase
  execute_phase-Ends BusPhase.bus_free s w at = search (ended, bus_free-IsWired)
  execute_phase-Ends BusPhase.selection s w at =
      ended _ _ (selection-IsWired s w (w.wired ∙ ap wiring at))
  execute_phase-Ends BusPhase.command s w at = search (ended, command-IsWired)
  execute_phase-Ends BusPhase.data_in s w at = search (executed-Ends, data_in-After)
  execute_phase-Ends BusPhase.data_out s w at = search (executed-Ends, data_out-After)
  execute_phase-Ends BusPhase.status s w at = search (executed-Ends, status_phase-After)
  execute_phase-Ends BusPhase.msg_in s w at = search (executed-Ends, msg_in-After)
  execute_phase-Ends BusPhase.msg_out s w at = search (executed-Ends, msg_out-After)
  execute_phase-Ends _ s w at = search ended

  process-Ends : (l : Sample) (s : State D) → IsWired s → Ends (process bus units l s)
  unfolding process
  process-Ends l s w = if_both-Ends l.rst _ _ (search (ended, reset-IsWired)) (
      chain-Ends (execute_phase bus units s.phase (sampled bus units l s)) _
        (execute_phase-Ends s.phase _ w refl) concluded-Ends)

  run-Ends : (n : ℕ) (l : ℕ → Sample) (s : State D) → IsWired s → Ends (run bus units n l s)
  unfolding run
  run-Ends zero l s w = ended s true w
  run-Ends (suc n) l s w =
      chain-Ends (process bus units (l zero) s) _ (process-Ends (l zero) s w)
        (λ u busy v. if_both-Ends busy _ _ (run-Ends n (λ i. l (suc i)) u v) (ended u false v))

-- Along any run from a state in which MSG, C/D and I/O encode the phase, whatever the initiator does
-- with its lines, whatever the handshakes transfer and whatever the logical units answer, they encode
-- it in the state that is reached.
pub run_keeps_wired :
    {D : Type 0} (bus : Bus) (units : Units D) (n : ℕ) (l : ℕ → Sample) (s u : State D)
    (busy : Bool)
    → s.signals ≡ wiring s.phase
    → run bus units n l s ≡ some (u, busy)
    → u.signals ≡ wiring u.phase
run_keeps_wired bus units n l s u busy w e =
    (Ends-state u busy (subst Ends e (run-Ends bus units n l s (record { wired = w })))).wired
