-- ===== src/Client/Agent.antt =====
-- The agent commands of the client (crates/rsdb-cli/src/main.rs).
pub mod Failure
pub mod Remote
pub mod Local
pub mod Verify
pub mod Push
pub mod Staged
pub mod Quiet
pub mod Stays
pub mod Beside
pub mod Proceeds
pub mod Pull
pub mod Transfer
pub mod Input
pub mod Fs
pub mod Exec
pub mod Shown
pub mod Relayed
mod Runs
