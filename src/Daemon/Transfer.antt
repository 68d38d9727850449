-- ===== src/Daemon/Transfer.antt =====
-- Bulk transfer: pushes into the daemon, and the batch stream out of it (device/rsdbd/src/main.rs).
pub mod Chunks
pub mod Roots
pub mod Push
pub mod Exact
pub mod Ends
pub mod Stream
pub mod Delivery
pub mod Pull
pub mod Lost
pub mod Manifest
pub mod Sums
pub mod Tally
mod Runs
