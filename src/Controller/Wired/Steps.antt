-- ===== src/Controller/Wired/Steps.antt =====
-- A call of Process leaves MSG, C/D and I/O as the new phase wants them.
use scsi2pi.Base.{ℕ, Bool, if◌then◌else◌, in_branches, Option, some, none, List, [], ◌∷◌}
use scsi2pi.Scsi.{BusPhase}
use scsi2pi.Controller.Transfer.{update_transfer_length}
use scsi2pi.Controller.State.{Bus, Units, State, Answer, answers, raises, chain}
use scsi2pi.Controller.Phases.{reset_flags}
use scsi2pi.Controller.Sending.{
  process_end_of_message, to_host, transfer_to_host, sent_all, send_bytes, send_next, send,
  status_phase, msg_in, data_in,
}
use scsi2pi.Controller.Messages.{reject_extended_message, parse_message, process_message, xfer_msg}
use scsi2pi.Controller.Receiving.{
  receive_bytes, taken, after_taken, from_host, take_message, received, receive_next, receive,
  msg_out, data_out,
}
use scsi2pi.Controller.Wired.{
  IsWired, enter_status-IsWired, enter_msg_in-IsWired, enter_msg_out-IsWired, enter_data_in-IsWired,
  enter_data_out-IsWired, bus_free-IsWired, if_both-IsWired, error-IsWired, command-IsWired,
}

-- The states that a call can leave.
pub data After {D : Type 0} : Option (State D) → Type 0 where
  stopped : After none
  left : (s : State D) → IsWired s → After (some s)

if_both-After :
    {D : Type 0} (b : Bool) (x y : Option (State D))
    → After x
    → After y
    → After (if b then x else y)
if_both-After b x y p q = in_branches After p q b

chain-After :
    {D : Type 0} (o : Option (State D)) (f : State D → Option (State D))
    → After o
    → ((s : State D) → IsWired s → After (f s))
    → After (chain o f)
chain-After _ f stopped next = stopped
chain-After _ f (left s w) next = next s w

chain_any-After :
    {A D : Type 0} (o : Option A) (f : A → Option (State D))
    → ((a : A) → After (f a))
    → After (chain o f)
chain_any-After none f next = stopped
chain_any-After (some a) f next = next a

module _ {D : Type 0} (bus : Bus) (units : Units D) where
  process_end_of_message-IsWired :
      (s : State D) → IsWired s → IsWired (process_end_of_message bus units s)
  unfolding process_end_of_message reset_flags
  process_end_of_message-IsWired s w = search (if_both-IsWired, command-IsWired, bus_free-IsWired)

  to_host-IsWired :
      (a : Answer D (Unit {0})) (s : State D) → IsWired s → IsWired (to_host bus units a s)
  unfolding to_host
  to_host-IsWired (answers _ t c d) s w = w
  to_host-IsWired (raises e t c d) s w = search error-IsWired

  transfer_to_host-IsWired : (s : State D) → IsWired s → IsWired (transfer_to_host bus units s)
  unfolding transfer_to_host
  transfer_to_host-IsWired s w = search to_host-IsWired

  sent_all-After : (p : BusPhase) (s : State D) → IsWired s → After (sent_all bus units p s)
  unfolding sent_all
  sent_all-After BusPhase.msg_in s w = left _ (process_end_of_message-IsWired s w)
  sent_all-After BusPhase.data_in s w = left _ (enter_status-IsWired s)
  sent_all-After BusPhase.status s w = search (left, enter_msg_in-IsWired)
  sent_all-After _ s w = stopped

  send_bytes-IsWired : (s : State D) → IsWired s → IsWired (send_bytes bus units s)
  unfolding send_bytes
  send_bytes-IsWired s w = search (if_both-IsWired, error-IsWired)

  send_next-After : (s : State D) → IsWired s → After (send_next bus units s)
  unfolding send_next
  send_next-After s w =
      chain_any-After (update_transfer_length s.transfer.chunk_size s.transfer) _ (λ t.
        search (if_both-After, sent_all-After, left, if_both-IsWired, transfer_to_host-IsWired))

  send-After : (s : State D) → IsWired s → After (send bus units s)
  unfolding send
  send-After s w = search (if_both-After, send_next-After, left, send_bytes-IsWired)

  pub status_phase-After : (s : State D) → IsWired s → After (status_phase bus units s)
  unfolding status_phase
  status_phase-After s w = search (if_both-After, send-After, left, enter_status-IsWired)

  pub msg_in-After : (s : State D) → IsWired s → After (msg_in bus units s)
  unfolding msg_in
  msg_in-After s w = search (if_both-After, send-After, left, enter_msg_in-IsWired)

  pub data_in-After : (s : State D) → IsWired s → After (data_in bus units s)
  unfolding data_in
  data_in-After s w = search (if_both-After, send-After, left, enter_data_in-IsWired)

  reject_extended_message-After :
      (s : State D) → IsWired s → After (reject_extended_message bus units s)
  unfolding reject_extended_message
  reject_extended_message-After s w = search msg_in-After

  parse_message-After :
      (bs : List ℕ) (s : State D) → IsWired s → After (parse_message bus units bs s)
  unfolding parse_message
  parse_message-After [] s w = left s w
  parse_message-After (b ∷ bs) s w = search (
    if_both-After,
    chain-After,
    left,
    bus_free-IsWired,
    reject_extended_message-After,
    parse_message-After bs,
  )

  process_message-After : (s : State D) → IsWired s → After (process_message bus units s)
  unfolding process_message
  process_message-After s w =
      search (if_both-After, chain-After, left, command-IsWired, parse_message-After)

  receive_bytes-IsWired : (s : State D) → IsWired s → IsWired (receive_bytes bus units s)
  unfolding receive_bytes
  receive_bytes-IsWired s w = search (if_both-IsWired, error-IsWired)

  taken-After : (n : ℕ) (s : State D) → IsWired s → After (taken bus units n s)
  unfolding taken
  taken-After n s w = chain_any-After (update_transfer_length n s.transfer) _ (λ t. search left)

  after_taken-After : (s : State D) → IsWired s → After (after_taken bus units s)
  unfolding after_taken
  after_taken-After s w = search (if_both-After, left, stopped, enter_status-IsWired)

  from_host-After : (a : Answer D ℕ) (s : State D) → IsWired s → After (from_host bus units a s)
  unfolding from_host
  from_host-After (answers n t c d) s w = search (chain-After, taken-After, after_taken-After)
  from_host-After (raises e t c d) s w = search (left, error-IsWired)

  take_message-After : (n : ℕ) (s : State D) → IsWired s → After (take_message bus units n s)
  unfolding take_message xfer_msg
  take_message-After n s w =
      chain_any-After (update_transfer_length n s.transfer) _
        (λ t. search (if_both-After, process_message-After, left, stopped))

  received-After :
      (p : BusPhase) (n : ℕ) (s : State D) → IsWired s → After (received bus units p n s)
  unfolding received
  received-After BusPhase.data_out n s w = search from_host-After
  received-After BusPhase.msg_out n s w = search take_message-After
  received-After _ n s w = stopped

  receive-After : (s : State D) → IsWired s → After (receive bus units s)
  unfolding receive receive_next
  receive-After s w = search (if_both-After, received-After, left, receive_bytes-IsWired)

  pub msg_out-After : (s : State D) → IsWired s → After (msg_out bus units s)
  unfolding msg_out
  msg_out-After s w = search (if_both-After, receive-After, left, enter_msg_out-IsWired)

  pub data_out-After : (s : State D) → IsWired s → After (data_out bus units s)
  unfolding data_out
  data_out-After s w = search (if_both-After, receive-After, left, enter_data_out-IsWired)
