-- ===== src/Device.antt =====
-- cpp/base/device.h and cpp/base/device.cpp: the state flags of a device, and starting, stopping
-- and ejecting it. Names, parameters and logging are left out.
use scsi2pi.Base.{Bool, true, false, not, ◌&&◌, ◌||◌, if◌then◌else◌}

pub record Device : Type 0 where
  pub ready : Bool
  pub reset : Bool
  pub attn : Bool
  pub protectable : Bool
  pub write_protected : Bool
  pub read_only : Bool
  pub stoppable : Bool
  pub stopped : Bool
  pub removable : Bool
  pub removed : Bool
  pub locked : Bool

-- The initial values of the fields.
abbrev pub initial : Device
initial = record {
  ready = false;
  reset = false;
  attn = false;
  protectable = false;
  write_protected = false;
  read_only = false;
  stoppable = false;
  stopped = false;
  removable = false;
  removed = false;
  locked = false;
}

unfoldable pub set_protected : Bool → Device → Device
set_protected b d = if d.protectable && not d.read_only then record d { write_protected = b } else d

unfoldable pub start : Device → Device × Bool
start d = if not d.ready then (d, false) else (record d { stopped = false }, true)

unfoldable pub stop : Device → Device
stop d = record d { ready = false; attn = false; stopped = true }

unfoldable pub eject : Bool → Device → Device × Bool
eject force d =
    if not d.ready || not d.removable
    then (d, false)
    else if not force && d.locked
    then (d, false)
    else (
      record d {
        ready = false;
        attn = false;
        removed = true;
        write_protected = false;
        locked = false;
        stopped = true;
      },
      true,
    )
