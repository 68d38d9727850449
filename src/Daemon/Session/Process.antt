-- ===== src/Daemon/Session/Process.antt =====
-- What the daemon uses of child processes and pseudo terminals, and its own state
-- (device/rsdbd/src/main.rs).
use rsdb.Base.{ℕ, Option, List, Result, ℤ}
use rsdb.Base.Exec.{Exec}
use rsdb.Base.Texts.{Text, Bytes}
use rsdb.Proto.Wire.{IoError, ProtocolError}
use rsdb.Daemon.Session.Pump.{OutputEvent}

-- `exec_timeout` is in seconds.
pub record ServerState : Type 0 where
  pub server_id : Text
  pub device_name : Text
  pub platform : Text
  pub shell_path : Text
  pub home_path : Text
  pub exec_timeout : ℕ
  pub tcp_port : ℕ

-- `std::process::Output`; a process that was killed has no exit code.
pub record Output : Type 0 where
  pub status : Option ℤ
  pub stdout : Bytes
  pub stderr : Bytes

pub data PtyInput : Type 0 where
  written : Bytes → PtyInput
  close : PtyInput

pub data PtyOutput : Type 0 where
  output : Bytes → PtyOutput
  eof : PtyOutput
  error : Text → PtyOutput

-- The branches of the shells' loops: an error of the task that reads the client's input, or what
-- the child does.
pub data ShellEvent : Type 0 where
  input_failed : ProtocolError → ShellEvent
  child : OutputEvent → ShellEvent

-- `none` is the end of the channel of the output pump.
pub data PtyEvent : Type 0 where
  input_failed : ProtocolError → PtyEvent
  received : Option PtyOutput → PtyEvent
  exited : Result IoError (Option ℤ) → PtyEvent

pub record ShellPtyRequest : Type 0 where
  pub term : Option Text
  pub rows : Option ℕ
  pub cols : Option ℕ

pub record Winsize : Type 0 where
  pub ws_row : ℕ
  pub ws_col : ℕ
  pub ws_xpixel : ℕ
  pub ws_ypixel : ℕ

-- The operating system's part. A started child gives the events that become ready: those before
-- the deadline, in seconds, for a command, all of them for a shell.
pub record Processes (S : Type 0) : Type 0 where
  -- `Command::output`; nothing where the deadline comes first.
  pub run : Text → List Text → Option Text → ℕ → S → Option (Result IoError Output) × S
  pub spawn : Text → List Text → Option Text → ℕ → Exec S IoError (List OutputEvent)
  -- The program, its arguments and `HOME`.
  pub spawn_shell : Text → List Text → Text → Exec S IoError (List ShellEvent)
  -- `openpty`, whose error has an error number, and then the program with `HOME` and `TERM`.
  pub openpty : Option Winsize → Exec S IoError (Unit {0})
  pub spawn_pty : Text → List Text → Text → Option Text → Exec S IoError (List PtyEvent)
  pub from_utf8_lossy : Bytes → Text
