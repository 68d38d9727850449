-- ===== src/Daemon/Session.antt =====
-- Commands and shells: what a child process writes goes to the client as it comes
-- (device/rsdbd/src/main.rs).
pub mod Pump
pub mod Process
pub mod Command
pub mod Shell
pub mod Ordered
pub mod Trace
pub mod Input
pub mod Delivered
mod Runs
