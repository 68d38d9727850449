-- ===== src/Client/Batch.antt =====
-- Batch transfers of the client (crates/rsdb-cli/src/main.rs).
pub mod Manifest
pub mod Selection
pub mod Filtered
pub mod Receive
pub mod Pulled
pub mod Mirrored
pub mod Streamed
pub mod Sent
pub mod Pulling
pub mod Replies
pub mod Items
pub mod Pushing
pub mod Kept
pub mod Placed
pub mod Pushed
pub mod Single
pub mod Conversation
mod Runs
pub mod Build
pub mod Agree
pub mod Alike
pub mod Exchange
