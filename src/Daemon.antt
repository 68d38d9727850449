-- ===== src/Daemon.antt =====
-- device/rsdbd/src/main.rs: the daemon.
pub mod Error
pub mod Host
pub mod Buffer
pub mod Fs
pub mod Memory
pub mod Transfer
pub mod Session
pub mod Server
mod Runs
