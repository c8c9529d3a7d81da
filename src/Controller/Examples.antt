-- ===== src/Controller/Examples.antt =====
-- Runs of a controller whose logical units do nothing.
use scsi2pi.Base.{ℕ, ◌≡◌, refl, true, false, some, none, [], ◌∷◌, ◌++◌, replicate}
use scsi2pi.Base.Int.{pos, negsuc}
use scsi2pi.Scsi.{BusPhase, SenseKey, Asc, StatusCode, status_value}
use scsi2pi.Controller.State.{Bus, Units, State, answers, status}
use scsi2pi.Controller.Phases.{lines, enter_status, enter_data_in, enter_selection, bus_free}
use scsi2pi.Controller.Process.{Sample, process, run, execute_phase, concluded}
use scsi2pi.Controller.Messages.{abort, process_message}
use scsi2pi.Controller.Aborts.{abort_enters_command}
use scsi2pi.Controller.Delivery.Data.{data_are_delivered, single}
use scsi2pi.Controller.Delivery.{observed, status_is_delivered}
use scsi2pi.Controller.Wired.Run.{run_keeps_wired}

abbrev test_bus : Bus
test_bus = record {
  command_bytes = λ n. replicate 6 0;
  command_count = λ n. pos 6;
  sent = λ n len. len;
  received = λ n len. replicate len 0;
  received_count = λ n len. len;
  raised = λ n. false;
  command_size = λ code. 6;
}

abbrev idle_units : Units (Unit {0})
idle_units = record {
  is_present = λ d lun. true;
  is_scsi_generic = λ d lun. false;
  set_status = λ lun k a d. d;
  reset_status = λ lun d. d;
  reset = λ d. d;
  reset_unit = λ lun d. d;
  check_reservation = λ lun i cdb d. true;
  dispatch = λ lun cdb t c d. answers status t c d;
  read_data = λ lun t c d. answers tt t c d;
  write_data = λ lun cdb n t c d. answers n t c d;
  mode_select = λ lun cdb n t c d. answers tt t c d;
}

abbrev idle : State (Unit {0})
idle = record {
  phase = BusPhase.bus_free;
  signals = lines false false false;
  bsy = false;
  rst = false;
  sel = false;
  atn = false;
  transfer = record {
    buffer = replicate 8 0;
    offset = 0;
    remaining_length = 0;
    current_length = 0;
    chunk_size = 0;
  };
  cdb = replicate 16 0;
  status = StatusCode.good;
  initiator_id = negsuc 0;
  identified_lun = none;
  atn_msg = false;
  linked = false;
  flag = false;
  deferred_sense_key = SenseKey.no_sense;
  deferred_asc = Asc.no_additional_sense_information;
  msg_bytes = [];
  handshakes = 0;
  output = [];
  units = tt;
}

-- The initiator selects the target.
abbrev selecting : ℕ → Sample
selecting n = record { rst = false; sel = true; atn = false }

abbrev failed_command : State (Unit {0})
failed_command = record idle {
  phase = BusPhase.command;
  signals = lines false true false;
  bsy = true;
  status = StatusCode.check_condition;
}

status_is_delivered_example :
    observed (run test_bus idle_units 4 selecting (enter_status failed_command))
    ≡ some (
      BusPhase.bus_free,
      false,
      (([] ++ (status_value StatusCode.check_condition ∷ [])) ++ (0x00 ∷ [])),
      false,
    )
status_is_delivered_example =
    status_is_delivered test_bus idle_units failed_command selecting (λ i. refl) (λ k. refl) refl
      refl

-- The state after the selection.
abbrev selected : State (Unit {0})
selected = record idle { phase = BusPhase.selection; bsy = true; sel = true }

first_call : run test_bus idle_units 1 selecting idle ≡ some (selected, true)
unfolding run process execute_phase concluded bus_free enter_selection
first_call = refl

run_keeps_wired_example : selected.signals ≡ lines false false false
run_keeps_wired_example =
    run_keeps_wired test_bus idle_units 1 selecting idle selected true refl first_call

-- The initiator has sent ABORT.
abbrev aborting : State (Unit {0})
aborting = record idle {
  phase = BusPhase.msg_out;
  signals = lines true true false;
  bsy = true;
  atn_msg = true;
  msg_bytes = abort ∷ [];
}

abort_enters_command_example :
    (u : State (Unit {0})) × (process_message test_bus idle_units aborting ≡ some u)
    × (u.bsy ≡ false)
    × (u.handshakes ≡ 1)
abort_enters_command_example =
    abort_enters_command test_bus idle_units aborting [] refl refl refl refl

-- A command has put two bytes into the buffer.
data_are_delivered_example :
    observed (
      run test_bus idle_units 6 selecting
        (enter_data_in (record failed_command { transfer = single (8 ∷ 9 ∷ 0 ∷ []) 2 })))
    ≡ some (
      BusPhase.bus_free,
      false,
      (([] ++ (8 ∷ 9 ∷ [])) ++ (status_value StatusCode.check_condition ∷ [])) ++ (0x00 ∷ []),
      false,
    )
data_are_delivered_example =
    data_are_delivered test_bus idle_units failed_command selecting (8 ∷ 9 ∷ 0 ∷ []) 1 (λ i. refl)
      (λ k n. refl) refl refl
