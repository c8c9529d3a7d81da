-- ===== src/Controller.antt =====
-- cpp/controllers: the target's side of the SCSI bus protocol.
pub mod State
pub mod Transfer
pub mod Phases
pub mod Commands
pub mod Sending
pub mod Receiving
pub mod Messages
pub mod Process
pub mod Wired
pub mod Delivery
pub mod Aborts
pub mod Examples
