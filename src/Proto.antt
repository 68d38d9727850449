-- ===== src/Proto.antt =====
-- crates/rsdb-proto/src/lib.rs: the wire protocol.
pub mod Wire
pub mod Header
pub mod Io
pub mod Frames
pub mod RoundTrip
pub mod Writers
pub mod StreamFrames
pub mod Failures
pub mod Json
pub mod Messages
mod Runs
