-- ===== src/Controller/State.antt =====
-- cpp/controllers/controller.h, controller.cpp and abstract_controller.h: the state of a controller,
-- and what it uses of the bus and of its logical units.
-- The bus lines are those of the target (BSY, MSG, C/D, I/O) and of the initiator (RST, SEL, ATN,
-- sampled when Process starts). REQ/ACK and the data lines are inside the handshakes of cpp/buses,
-- which are an interface here: what each handshake transfers is a function of its number. The logical
-- units are an interface as well: a handler answers with the phase that it asks for, or raises.
-- Assertions on the table of commands are left out, those on the transfer and the phase are modelled.
use scsi2pi.Base.{ℕ, Bool, List, Option, some, none}
use scsi2pi.Base.Int.{ℤ}
use scsi2pi.Scsi.{BusPhase, ScsiException, SenseKey, Asc, StatusCode}
use scsi2pi.Controller.Transfer.{Transfer}

-- MSG, C/D and I/O.
pub record Signals : Type 0 where
  pub msg : Bool
  pub cd : Bool
  pub io : Bool

-- The bus: its handshakes, by their number, and whether the initiator has raised RST since the
-- lines were sampled.
pub record Bus : Type 0 where
  pub command_bytes : ℕ → List ℕ
  pub command_count : ℕ → ℤ
  pub sent : ℕ → ℕ → ℕ
  pub received : ℕ → ℕ → List ℕ
  pub received_count : ℕ → ℕ → ℕ
  pub raised : ℕ → Bool
  pub command_size : ℕ → ℕ

-- How a handler ends, with the transfer and the status that it leaves.
pub data Answer (D A : Type 0) : Type 0 where
  answers : A → Transfer → StatusCode → D → Answer D A
  raises : ScsiException → Transfer → StatusCode → D → Answer D A

-- The phase that a command handler asks for. FORMAT UNIT enforces a DATA OUT phase of length -1.
pub data Request : Type 0 where
  no_phase status data_out_enforced : Request
  data_in data_out : ℕ → Request

-- The logical units, by LUN.
pub record Units (D : Type 0) : Type 0 where
  pub is_present : D → ℕ → Bool
  pub is_scsi_generic : D → ℕ → Bool
  pub set_status : ℕ → SenseKey → Asc → D → D
  pub reset_status : ℕ → D → D
  pub reset : D → D
  pub reset_unit : ℕ → D → D
  pub check_reservation : ℕ → ℤ → List ℕ → D → Bool
  pub dispatch : ℕ → List ℕ → Transfer → StatusCode → D → Answer D Request
  pub read_data : ℕ → Transfer → StatusCode → D → Answer D (Unit {0})
  pub write_data : ℕ → List ℕ → ℕ → Transfer → StatusCode → D → Answer D ℕ
  pub mode_select : ℕ → List ℕ → ℕ → Transfer → StatusCode → D → Answer D (Unit {0})

-- `output` is what the handshakes have sent to the initiator.
pub record State (D : Type 0) : Type 0 where
  pub phase : BusPhase
  pub signals : Signals
  pub bsy : Bool
  pub rst : Bool
  pub sel : Bool
  pub atn : Bool
  pub transfer : Transfer
  pub cdb : List ℕ
  pub status : StatusCode
  pub initiator_id : ℤ
  pub identified_lun : Option ℕ
  pub atn_msg : Bool
  pub linked : Bool
  pub flag : Bool
  pub deferred_sense_key : SenseKey
  pub deferred_asc : Asc
  pub msg_bytes : List ℕ
  pub handshakes : ℕ
  pub output : List ℕ
  pub units : D

-- A step that can stop at a failed assertion, and the next one.
abbrev pub chain : {A B : Type 0} → Option A → (A → Option B) → Option B
chain none f = none
chain (some a) f = f a
