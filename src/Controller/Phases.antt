-- ===== src/Controller/Phases.antt =====
-- cpp/controllers/phase_handler.h and controller.cpp: entering the bus phases, and errors. `enter_`
-- is what a phase's method does when the phase changes; the callers' phases differ from it.
use scsi2pi.Base.{
  ℕ, Bool, true, false, not, ◌&&◌, ◌||◌, ◌==◌, if◌then◌else◌, none, some, [], get_or, set, ◌/◌,
}
use scsi2pi.Base.Int.{negsuc}
use scsi2pi.Scsi.{BusPhase, SenseKey, Asc, StatusCode, status_value}
use scsi2pi.Controller.Transfer.{Transfer, set_current_length, set_transfer_size, reset_offset}
use scsi2pi.Controller.State.{Signals, Bus, Units, State}

abbrev pub lines : Bool → Bool → Bool → Signals
lines m c i = record { msg = m; cd = c; io = i }

abbrev pub is_bus_free : BusPhase → Bool
is_bus_free BusPhase.bus_free = true
is_bus_free _ = false

abbrev pub is_selection : BusPhase → Bool
is_selection BusPhase.selection = true
is_selection _ = false

abbrev pub is_command : BusPhase → Bool
is_command BusPhase.command = true
is_command _ = false

abbrev pub is_status : BusPhase → Bool
is_status BusPhase.status = true
is_status _ = false

abbrev pub is_msg_in : BusPhase → Bool
is_msg_in BusPhase.msg_in = true
is_msg_in _ = false

abbrev pub is_msg_out : BusPhase → Bool
is_msg_out BusPhase.msg_out = true
is_msg_out _ = false

abbrev pub is_data_in : BusPhase → Bool
is_data_in BusPhase.data_in = true
is_data_in _ = false

abbrev pub is_data_out : BusPhase → Bool
is_data_out BusPhase.data_out = true
is_data_out _ = false

-- GetBuffer()[0] = b
abbrev pub front : ℕ → Transfer → Transfer
front b t = record t { buffer = set t.buffer 0 b }

-- SetCurrentLength(1); SetTransferSize(1, 1)
abbrev pub one_byte : Transfer → Transfer
one_byte t = set_transfer_size 1 1 (set_current_length 1 t)

abbrev is_good : StatusCode → Bool
is_good StatusCode.good = true
is_good _ = false

-- The status byte. A successfully terminated linked command converts it.
abbrev pub status_byte : Bool → StatusCode → ℕ
unfolding status_value
status_byte linked code =
    if linked && is_good code then status_value StatusCode.intermediate else status_value code

module _ {D : Type 0} where
  -- GetEffectiveLun
  abbrev pub effective_lun : State D → ℕ
  effective_lun s = elim s.identified_lun [ some lun ↦ lun | none ↦ get_or s.cdb 1 0 / 32 ]

  unfoldable pub enter_status : State D → State D
  unfolding set_transfer_size set_current_length reset_offset
  enter_status s = record s {
    phase = BusPhase.status;
    signals = lines false true true;
    transfer = front (status_byte s.linked s.status) (one_byte (reset_offset s.transfer));
  }

  unfoldable pub enter_msg_in : State D → State D
  unfolding reset_offset
  enter_msg_in s = record s {
    phase = BusPhase.msg_in;
    signals = lines true true true;
    transfer = reset_offset s.transfer;
  }

  unfoldable pub enter_msg_out : State D → State D
  unfolding set_transfer_size set_current_length reset_offset
  enter_msg_out s =
      let selected = is_selection s.phase in
      record s {
        phase = BusPhase.msg_out;
        signals = lines true true false;
        transfer = one_byte (reset_offset s.transfer);
        atn_msg = if selected then true else s.atn_msg;
        msg_bytes = if selected then [] else s.msg_bytes;
      }

  -- The DATA phases are skipped if there is nothing to transfer.
  unfoldable pub enter_data_in : State D → State D
  unfolding enter_status reset_offset
  enter_data_in s = if s.transfer.current_length == 0 then enter_status s else record s {
    phase = BusPhase.data_in;
    signals = lines false false true;
    transfer = reset_offset s.transfer;
  }

  -- `enforced` is the current length -1.
  unfoldable pub enter_data_out : Bool → State D → State D
  unfolding enter_status reset_offset
  enter_data_out enforced s =
      if not enforced && s.transfer.current_length == 0 then enter_status s else record s {
        phase = BusPhase.data_out;
        signals = lines false false false;
        transfer = reset_offset s.transfer;
      }

  unfoldable pub enter_selection : State D → State D
  enter_selection s = record s { phase = BusPhase.selection; bsy = true }

  -- BusFree where the bus is not free yet.
  unfoldable pub release : State D → State D
  release s = record s {
    phase = BusPhase.bus_free;
    signals = lines false false false;
    bsy = false;
    status = StatusCode.good;
    identified_lun = none;
    atn_msg = false;
  }

  unfoldable pub bus_free : State D → State D
  unfolding release enter_selection
  bus_free s =
      if not (is_bus_free s.phase)
      then release s
      else if s.sel && not s.bsy
      then enter_selection s
      else s

  unfoldable pub reset_flags : State D → State D
  reset_flags s = record s { linked = false; flag = false; atn_msg = false }

abbrev is_no_sense : SenseKey → Bool
is_no_sense SenseKey.no_sense = true
is_no_sense _ = false

abbrev is_no_additional : Asc → Bool
is_no_additional Asc.no_additional_sense_information = true
is_no_additional _ = false

abbrev is_unsupported_unit : Asc → Bool
is_unsupported_unit Asc.logical_unit_not_supported = true
is_unsupported_unit _ = false

module _ {D : Type 0} (bus : Bus) (units : Units D) where
  -- The unit that keeps the sense data of an error.
  abbrev pub error_lun : Asc → State D → ℕ
  error_lun a s =
      if is_unsupported_unit a || not (units.is_present s.units (effective_lun s))
      then 0
      else effective_lun s

  -- Error
  unfoldable pub error : SenseKey → Asc → StatusCode → State D → State D
  unfolding bus_free enter_status
  error k a code s =
      if s.rst || bus.raised s.handshakes || is_status s.phase || is_msg_in s.phase
      then bus_free s
      else enter_status (record s {
        status = code;
        units =
            if is_no_sense k && is_no_additional a
            then s.units
            else units.set_status (error_lun a s) k a s.units;
      })

  -- AbstractController::Reset and Controller::Reset. The bus lines become inactive.
  unfoldable pub reset : State D → State D
  unfolding reset_flags
  reset s = record (reset_flags s) {
    phase = BusPhase.bus_free;
    signals = lines false false false;
    bsy = false;
    rst = false;
    sel = false;
    atn = false;
    transfer = record s.transfer {
      offset = 0;
      remaining_length = 0;
      current_length = 0;
      chunk_size = 0;
    };
    status = StatusCode.good;
    initiator_id = negsuc 0;
    identified_lun = none;
    units = units.reset s.units;
  }
