-- ===== src/Controller/Delivery/Data.antt =====
-- A command that answers with data, from the DATA IN phase to the free bus.
use scsi2pi.Base.{
  ℕ, suc, ◌+◌, ◌≡◌, refl, true, false, some, List, [], ◌∷◌, ◌++◌, take, ◌==◌, ==_refl, arith,
}
use scsi2pi.Scsi.{BusPhase, status_value}
use scsi2pi.Controller.Transfer.{
  Transfer, reset_offset, update_transfer_length, update_offset_and_length,
}
use scsi2pi.Controller.State.{Bus, Units, State}
use scsi2pi.Controller.Phases.{enter_status, enter_data_in, lines}
use scsi2pi.Controller.Sending.{data_in, send, send_bytes, send_next, sent_all}
use scsi2pi.Controller.Process.{Sample, execute_phase, process, run, sampled, concluded}
use scsi2pi.Controller.Delivery.{observed, status_is_delivered}

-- A transfer of one handshake, at its start and behind it.
abbrev pub single : List ℕ → ℕ → Transfer
single buffer n = record {
  buffer = buffer;
  offset = 0;
  remaining_length = 0;
  current_length = n;
  chunk_size = 0;
}

suc-==-zero : (m : ℕ) → (suc m == 0) ≡ false
suc-==-zero m = ground arith

module _ {D : Type 0} (bus : Bus) (units : Units D) (exact : (k n : ℕ) → bus.sent k n ≡ n) where
  abbrev offered : List ℕ → ℕ → State D → State D
  offered xs n s = record s {
    phase = BusPhase.data_in;
    signals = lines false false true;
    transfer = single xs n;
  }

  abbrev handed : List ℕ → ℕ → Sample → State D → State D
  handed xs n l s = record (sampled bus units l (offered xs n s)) {
    transfer = update_offset_and_length (single xs n);
    handshakes = s.handshakes + 1;
    output = s.output ++ take n xs;
  }

  -- The state in which the STATUS phase is entered.
  abbrev idle_after : List ℕ → ℕ → Sample → Sample → State D → State D
  idle_after xs n k l s = sampled bus units l (handed xs n k s)

  process_data :
      (xs : List ℕ) (m : ℕ) (l : Sample) (s : State D)
      → l.rst ≡ false
      → process bus units l (offered xs (suc m) s) ≡ some (handed xs (suc m) l s, true)
  unfolding process execute_phase data_in send send_bytes concluded
  process_data xs m l s quiet =
      rw (quiet, suc-==-zero m, exact s.handshakes (suc m), ==_refl (suc m)) refl

  process_data_end :
      (xs : List ℕ) (n : ℕ) (k l : Sample) (s : State D)
      → l.rst ≡ false
      → process bus units l (handed xs n k s) ≡ some (enter_status (idle_after xs n k l s), true)
  unfolding process execute_phase data_in send send_next sent_all concluded enter_status
      update_transfer_length update_offset_and_length
  process_data_end xs n k l s quiet = rw quiet refl

-- A handler that asks for a DATA IN phase of suc m bytes, which lie at the front of the buffer, with
-- no further chunk to come, in a command that is not linked and with no message pending: as long as
-- the initiator does not raise RST and takes every byte, six calls of Process send those bytes, the
-- status byte and COMMAND COMPLETE, in this order, and leave the bus free.
pub data_are_delivered :
    {D : Type 0} (bus : Bus) (units : Units D) (s : State D) (l : ℕ → Sample) (xs : List ℕ) (m : ℕ)
    → ((i : ℕ) → (l i).rst ≡ false)
    → ((k n : ℕ) → bus.sent k n ≡ n)
    → s.linked ≡ false
    → s.atn_msg ≡ false
    → observed (run bus units 6 l (enter_data_in (record s { transfer = single xs (suc m) })))
      ≡ some (
        BusPhase.bus_free,
        false,
        ((s.output ++ take (suc m) xs) ++ (status_value s.status ∷ [])) ++ (0x00 ∷ []),
        false,
      )
unfolding enter_data_in reset_offset run
data_are_delivered bus units s l xs m quiet exact unlinked silent =
    rw
      (
        suc-==-zero m,
        process_data bus units exact xs m (l 0) s (quiet 0),
        process_data_end bus units exact xs (suc m) (l 0) (l 1) s (quiet 1),
      )
      (status_is_delivered bus units (idle_after bus units exact xs (suc m) (l 0) (l 1) s)
        (λ i. l (suc (suc i))) (λ i. quiet (suc (suc i))) (λ k. exact k 1) unlinked silent)
