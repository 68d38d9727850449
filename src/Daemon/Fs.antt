-- ===== src/Daemon/Fs.antt =====
-- The daemon's file system requests (device/rsdbd/src/main.rs).
pub mod Entries
pub mod Order
pub mod Inspect
pub mod Listing
pub mod Depth
pub mod Reads
pub mod Write
pub mod Tree
pub mod Guards
pub mod Volume
pub mod Atomic
