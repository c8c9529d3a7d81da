-- ===== src/Controller/Delivery.antt =====
-- The end of a command: the STATUS and the MESSAGE IN phase.
pub mod Data
use scsi2pi.Base.{
  not_ltb, arith, ℕ, suc, ◌+◌, ◌≡◌, refl, ap, ◌∙◌, Bool, true, false, if◌then◌else◌, Option, some,
  none, List, [], ◌∷◌, ◌++◌, take, set, length,
}
use scsi2pi.Scsi.{BusPhase, status_value}
use scsi2pi.Controller.Transfer.{
  grow, set_current_length, set_transfer_size, reset_offset, update_transfer_length,
  update_offset_and_length,
}
use scsi2pi.Controller.State.{Bus, Units, State, chain}
use scsi2pi.Controller.Phases.{
  enter_status, enter_msg_in, front, one_byte, status_byte, bus_free, release, lines,
}
use scsi2pi.Controller.Sending.{
  status_phase, msg_in, send, send_next, sent_all, process_end_of_message,
}
use scsi2pi.Controller.Process.{Sample, execute_phase, process, run, sampled, concluded}

grow_lem : (b : ℕ) (xs : List ℕ) → take 1 (set (grow 1 xs) 0 b) ≡ b ∷ []
grow_lem b [] = refl
grow_lem b (x ∷ xs) = rw (not_ltb (suc (length xs)) 1 (omega arith)) refl

-- What the initiator sees of a run: the phase, BSY, what was sent, and whether it goes on.
abbrev pub observed :
    {D : Type 0} → Option (State D × Bool) → Option (BusPhase × Bool × List ℕ × Bool)
observed none = none
observed (some (u, busy)) = some (u.phase, u.bsy, u.output, busy)

observed_flag :
    {D : Type 0} (o : Option (State D × Bool))
    → observed (chain o (λ x. if x.1 then some (x.0, true) else some (x.0, false))) ≡ observed o
observed_flag none = refl
observed_flag (some (s, true)) = refl
observed_flag (some (s, false)) = refl

module _ {D : Type 0} (bus : Bus) (units : Units D) where
  -- A phase that sends one byte, before and after its handshake.
  abbrev sending : BusPhase → ℕ → State D → State D
  sending p b s = record s { phase = p; transfer = front b (one_byte (reset_offset s.transfer)) }

  abbrev sent : BusPhase → ℕ → Sample → State D → State D
  sent p b l s = record (sampled bus units l (sending p b s)) {
    transfer = update_offset_and_length (front b (one_byte (reset_offset s.transfer)));
    handshakes = s.handshakes + 1;
    output = s.output ++ (b ∷ []);
  }

  process_status :
      (b : ℕ) (l : Sample) (s : State D)
      → l.rst ≡ false
      → bus.sent s.handshakes 1 ≡ 1
      → process bus units l (sending BusPhase.status b s) ≡ some (sent BusPhase.status b l s, true)
  unfolding process execute_phase status_phase send concluded set_current_length set_transfer_size
  process_status b l s quiet exact = rw (quiet, exact, grow_lem b s.transfer.buffer) refl

  process-msg_in :
      (b : ℕ) (l : Sample) (s : State D)
      → l.rst ≡ false
      → bus.sent s.handshakes 1 ≡ 1
      → process bus units l (sending BusPhase.msg_in b s) ≡ some (sent BusPhase.msg_in b l s, true)
  unfolding process execute_phase msg_in send concluded set_current_length set_transfer_size
  process-msg_in b l s quiet exact = rw (quiet, exact, grow_lem b s.transfer.buffer) refl

  -- Behind the status byte comes the message byte.
  process_status_end :
      (b : ℕ) (k l : Sample) (s : State D)
      → l.rst ≡ false
      → s.linked ≡ false
      → process bus units l (sent BusPhase.status b k s)
        ≡ some (
          sending BusPhase.msg_in 0 (record (sampled bus units l (sent BusPhase.status b k s)) {
            signals = lines true true true;
          }),
          true,
        )
  unfolding process execute_phase status_phase send send_next sent_all concluded enter_msg_in
      update_transfer_length update_offset_and_length set_current_length set_transfer_size
      reset_offset
  process_status_end b k l s quiet unlinked = rw (quiet, unlinked) refl

  process-msg_in_end :
      (b : ℕ) (k l : Sample) (s : State D)
      → l.rst ≡ false
      → s.linked ≡ false
      → s.atn_msg ≡ false
      → observed (process bus units l (sent BusPhase.msg_in b k s))
        ≡ some (BusPhase.bus_free, false, s.output ++ (b ∷ []), false)
  unfolding process execute_phase msg_in send send_next sent_all concluded process_end_of_message
      bus_free release update_transfer_length update_offset_and_length set_current_length
      set_transfer_size reset_offset
  process-msg_in_end b k l s quiet unlinked silent = rw (quiet, silent, unlinked) refl

  -- The four calls, from any state that the STATUS phase is entered in.
  module _ (s : State D) (l : ℕ → Sample) (quiet : (i : ℕ) → (l i).rst ≡ false)
      (exact : (k : ℕ) → bus.sent k 1 ≡ 1) where
    abbrev code : ℕ
    code = status_byte s.linked s.status

    abbrev first : State D
    first = sent BusPhase.status code (l 0) (record s { signals = lines false true true })

    abbrev second : State D
    second = record (sampled bus units (l 1) first) { signals = lines true true true }

    run_delivery :
        s.linked ≡ false
        → observed (run bus units 4 l (enter_status s))
          ≡ observed (process bus units (l 3) (sent BusPhase.msg_in 0 (l 2) second))
    unfolding run enter_status
    run_delivery unlinked =
        rw
          (
            process_status code (l 0) (record s { signals = lines false true true }) (quiet 0)
                (exact _),
            process_status_end code (l 0) (l 1) (record s { signals = lines false true true })
                (quiet 1) unlinked,
            process-msg_in 0 (l 2) second (quiet 2) (exact _),
          )
          (observed_flag (process bus units (l 3) (sent BusPhase.msg_in 0 (l 2) second)))

-- Once the STATUS phase is entered for a command that is not linked, with no message pending, and as
-- long as the initiator does not raise RST and takes every byte, four calls of Process send the status
-- byte and then the COMMAND COMPLETE message, release BSY and leave the bus free, and the loop ends.
pub status_is_delivered :
    {D : Type 0} (bus : Bus) (units : Units D) (s : State D) (l : ℕ → Sample)
    → ((i : ℕ) → (l i).rst ≡ false)
    → ((k : ℕ) → bus.sent k 1 ≡ 1)
    → s.linked ≡ false
    → s.atn_msg ≡ false
    → observed (run bus units 4 l (enter_status s))
      ≡ some (
        BusPhase.bus_free,
        false,
        (s.output ++ (status_value s.status ∷ [])) ++ (0x00 ∷ []),
        false,
      )
unfolding status_value
status_is_delivered bus units s l quiet exact unlinked silent =
    run_delivery bus units s l quiet exact unlinked
    ∙ process-msg_in_end bus units 0 (l 2) (l 3) (second bus units s l quiet exact) (quiet 3)
        unlinked silent
    ∙ ap (λ b. some (BusPhase.bus_free, false, (s.output ++ (b ∷ [])) ++ (0x00 ∷ []), false))
        (rw unlinked refl)
