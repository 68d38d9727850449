-- ===== src/Paths.antt =====
-- Transfer paths: `join_transfer_relative_path` and its neighbours (device/rsdbd/src/main.rs, and the
-- same functions in crates/rsdb-cli/src/main.rs), over `std::path` on Unix.
pub mod Components
pub mod Transfer
pub mod Contained
pub mod Landing
pub mod Roots
mod Runs
