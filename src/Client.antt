-- ===== src/Client.antt =====
-- crates/rsdb-cli/src/main.rs: the client.
pub mod Registry
pub mod Operations
pub mod Failures
pub mod Addresses
pub mod Commands
pub mod States
pub mod Batch
pub mod Agent
pub mod Requests
pub mod Completion
pub mod ShellSession
mod Runs
