-- ===== src/Daemon/Session/Shell.antt =====
-- Shells: handle_shell, handle_pipe_shell and handle_pty_shell, with the command lines that they run
-- (device/rsdbd/src/main.rs). The task that reads the client's input is `Input`; its error is an
-- event here. Where the events end before the loop does, the handler still waits: the world is what
-- it has sent so far.
use rsdb.Base.{
  ℕ, zero, suc, Bool, true, false, ◌||◌, Option, none, some, List, [], ◌∷◌, ◌++◌, all, Result, ok,
  err, map_err, ◌==◌, if◌then◌else◌,
}
use rsdb.Base.Exec.{pure, throw, lift, ◌>>=◌, ◌>>◌}
use rsdb.Base.Texts.{Text, Bytes, codes, decimal}
use rsdb.Proto.Wire.{
  IoError, IoErrorKind, ProtocolError, broken_pipe, connection_reset, unexpected_eof,
}
use rsdb.Proto.Wire
use rsdb.Proto.Messages.{ControlResponse, ErrorCode, exec_failed, shell_started, shell_exit}
use rsdb.Proto.Messages
use rsdb.Proto.Io.{AsyncWrite}
use rsdb.Proto.Frames.{write_stream_frame}
use rsdb.Shell.Quote.{join_shell_command}
use rsdb.Daemon.Error.{Error, bail, from_protocol, io_kind_eq}
use rsdb.Daemon.Host.{Host, Daemon, io_context, on_fs, on_out, respond, to_string}
use rsdb.Daemon.Transfer.Roots.{is_blank}
use rsdb.Daemon.Session.Pump.{Pump, start, is_none, is_running, on_event}
use rsdb.Daemon.Session.Process.{
  ServerState, Processes, ShellPtyRequest, Winsize, PtyOutput, output, eof, error, ShellEvent,
  input_failed, child, PtyEvent, received, exited,
}
use rsdb.Daemon.Session.Command.{exit_code}

pub record ShellRequest : Type 0 where
  pub command : Option Text
  pub args : List Text
  pub pty : Option ShellPtyRequest

-- The command that is shown, and the shell's arguments.
unfoldable pub shell_command_line : Option Text → List Text → Text → Result Error (Text × List Text)
shell_command_line none args shell = ok (shell ++ codes " -l -i", codes "-l" ∷ codes "-i" ∷ [])
shell_command_line (some command) args shell =
    if all is_blank command
    then err (bail (codes "shell command must not be empty"))
    else ok (
      shell ++ (codes " -lc " ++ join_shell_command command args),
      codes "-lc" ∷ join_shell_command command args ∷ [],
    )

abbrev positive : Option ℕ → Option ℕ
positive none = none
positive (some zero) = none
positive (some (suc n)) = some (suc n)

abbrev winsize_of : Option ℕ → Option ℕ → Option Winsize
winsize_of (some rows) (some cols) =
    some (record { ws_row = rows; ws_col = cols; ws_xpixel = 0; ws_ypixel = 0 })
winsize_of rows cols = none

unfoldable pub shell_winsize : Option ℕ → Option ℕ → Option Winsize
shell_winsize rows cols = winsize_of (positive rows) (positive cols)

-- `EIO` is 5.
unfoldable pub is_pty_closed_error : IoError → Bool
is_pty_closed_error e =
    io_kind_eq e.kind broken_pipe
    || io_kind_eq e.kind connection_reset
    || io_kind_eq e.kind unexpected_eof
    || elim e.raw_os_error [ none ↦ false | some code ↦ code == 5 ]

-- `start_pty_output_pump`: what it passes on of the reads of the terminal.
unfoldable pub pty_outputs : (IoError → Text) → List (Result IoError Bytes) → List PtyOutput
unfolding is_pty_closed_error
pty_outputs show [] = []
pty_outputs show (ok [] ∷ reads) = eof ∷ []
pty_outputs show (ok (b ∷ read) ∷ reads) = output (b ∷ read) ∷ pty_outputs show reads
pty_outputs show (err e ∷ reads) = if is_pty_closed_error e then eof ∷ [] else error (show e) ∷ []

-- `term.filter(|value| !value.trim().is_empty())`
abbrev usable_term : Option Text → Option Text
usable_term none = none
usable_term (some term) = if all is_blank term then none else some term

abbrev failed_to_wait : Text
failed_to_wait = codes "failed to wait for shell process"

-- A terminal has one stream.
abbrev pub pty_start : Pump
pty_start = record start { stderr_open = false }

abbrev pty_error : IoError → Error
pty_error e = bail (
    codes "failed to allocate PTY: os error "
    ++ elim e.raw_os_error [ none ↦ [] | some code ↦ decimal code ])

module _ {W S : Type 0} ⦃w : AsyncWrite W⦄ (host : Host S) (request_id : ℕ) where
  unfoldable pub send_error : ErrorCode → Error → Daemon W S (Unit {0})
  send_error code e = respond host request_id (Messages.error code (to_string host e))

module _ {W S : Type 0} ⦃w : AsyncWrite W⦄ (host : Host S) (processes : Processes S)
    (state : ServerState) (request_id : ℕ) where
  -- What follows the loop of a shell, once it has ended.
  abbrev pub shell_over : Pump → Daemon W S (Unit {0})
  shell_over pump =
      if is_running pump
      then pure tt
      else respond host request_id (shell_exit (exit_code pump.exit_status))

  -- The loop of `handle_pipe_shell` and what follows it. An error of the input is reported, and
  -- ends the session.
  unfoldable pub drive_shell : List ShellEvent → Pump → Daemon W S (Unit {0})
  unfolding on_event send_error
  drive_shell [] pump = shell_over pump
  drive_shell (input_failed e ∷ events) pump =
      if is_running pump
      then send_error host request_id exec_failed (from_protocol e)
      else shell_over pump
  drive_shell (child event ∷ events) pump =
      let next = on_event request_id failed_to_wait event pump >>= drive_shell events in
      if is_running pump then next else shell_over pump

  unfoldable pub handle_pipe_shell : Option Text → List Text → Daemon W S (Unit {0})
  unfolding shell_command_line drive_shell
  handle_pipe_shell command args = do
    (display_command, argv) ← lift (shell_command_line command args state.shell_path)
    events ←
        on_fs (io_context (codes "failed to spawn shell command: " ++ state.shell_path))
          (processes.spawn_shell state.shell_path argv state.home_path)
    respond host request_id (shell_started display_command)
    drive_shell events start

  unfoldable pub on_output : Option PtyOutput → Pump → Daemon W S Pump
  on_output (some (output bytes)) pump = do
    on_out (write_stream_frame request_id Wire.stdout false bytes)
    pure pump
  on_output (some (error text)) pump = throw (bail (codes "PTY stream failed: " ++ text))
  on_output _ pump = do
    on_out (write_stream_frame request_id Wire.stdout true [])
    pure (record pump { stdout_open = false })

  -- One round of the loop of `handle_pty_shell`.
  unfoldable pub on_pty_event : PtyEvent → Pump → Daemon W S Pump
  unfolding on_output
  on_pty_event (input_failed e) pump = throw (from_protocol e)
  on_pty_event (received message) pump =
      if pump.stdout_open then on_output message pump else pure pump
  on_pty_event (exited status) pump =
      if is_none pump.exit_status
      then (do
        code ← lift (map_err (io_context failed_to_wait) status)
        pure (record pump { exit_status = some code }))
      else pure pump

  unfoldable pub drive_pty : List PtyEvent → Pump → Daemon W S (Unit {0})
  unfolding on_pty_event
  drive_pty [] pump = shell_over pump
  drive_pty (event ∷ events) pump =
      let next = on_pty_event event pump >>= drive_pty events in
      if is_running pump then next else shell_over pump

  unfoldable pub handle_pty_shell :
      Option Text → List Text → ShellPtyRequest → Daemon W S (Unit {0})
  unfolding shell_command_line drive_pty shell_winsize
  handle_pty_shell command args pty = do
    (display_command, argv) ← lift (shell_command_line command args state.shell_path)
    on_fs pty_error (processes.openpty (shell_winsize pty.rows pty.cols))
    events ←
        on_fs (io_context (codes "failed to spawn PTY shell command: " ++ state.shell_path))
          (processes.spawn_pty state.shell_path argv state.home_path (usable_term pty.term))
    respond host request_id (shell_started display_command)
    drive_pty events pty_start

  unfoldable pub handle_shell : ShellRequest → Daemon W S (Unit {0})
  unfolding handle_pipe_shell handle_pty_shell
  handle_shell request = elim request.pty [
    | none ↦ handle_pipe_shell request.command request.args
    | some pty ↦ handle_pty_shell request.command request.args pty
  ]
