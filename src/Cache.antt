-- ===== src/Cache.antt =====
-- cpp/devices/cache.h and its two implementations.
pub mod Track
pub mod Disk
pub mod Holds
pub mod Kept
pub mod Loaded
pub mod Stored
pub mod Slots
pub mod Filled
pub mod Assigned
pub mod Refined
pub mod Reads
pub mod Writes
pub mod Flushed
pub mod Run
pub mod Crashes
pub mod Replaced
pub mod Linux
pub mod Direct
pub mod Examples
pub mod Changed
