-- ===== src/Shell.antt =====
-- The command line that the daemon hands to `sh -c` (`join_shell_command` and `shell_quote` of
-- device/rsdbd/src/main.rs).
pub mod Quote
pub mod Words
pub mod Faithful
mod Runs
