-- ===== src/Daemon/Session/Command.antt =====
-- Commands: execute_command, stream_command_output and handle_exec_request
-- (device/rsdbd/src/main.rs). The deadline falls between two rounds of the loop.
use rsdb.Base.{
  ℕ, ℤ, negsuc, Bool, false, Option, none, some, List, [], ◌++◌, all, Result, ok, err,
  if◌then◌else◌,
}
use rsdb.Base.Exec.{throw, ◌>>=◌}
use rsdb.Base.Texts.{Text, codes, decimal}
use rsdb.Proto.Wire.{IoError}
use rsdb.Proto.Messages.{ControlResponse, exec_result, error, exec_failed, exec_timeout}
use rsdb.Proto.Io.{AsyncWrite}
use rsdb.Daemon.Error.{Error, bail}
use rsdb.Daemon.Host.{Host, Daemon, io_context, on_fs, respond, to_string}
use rsdb.Daemon.Transfer.Roots.{is_blank}
use rsdb.Daemon.Session.Pump.{Pump, start, is_running, drive}
use rsdb.Daemon.Session.Process.{ServerState, Output, Processes}

-- The fields of `ExecRequest`.
pub record ExecRequest : Type 0 where
  pub command : Text
  pub args : List Text
  pub cwd : Option Text
  pub timeout_secs : Option ℕ
  pub stream_output : Bool

-- The function `exec_timeout`.
abbrev pub timeout_of : Option ℕ → ℕ → ℕ
timeout_of none default_timeout = default_timeout
timeout_of (some secs) default_timeout = secs

abbrev pub timed_out : ℕ → ControlResponse
timed_out secs =
    error exec_timeout (codes "command timed out after " ++ (decimal secs ++ codes " seconds"))

-- `status.code().unwrap_or(-1)`
abbrev pub code_or_minus_one : Option ℤ → ℤ
code_or_minus_one none = negsuc 0
code_or_minus_one (some code) = code

-- The code of a loop that has ended.
abbrev pub exit_code : Option (Option ℤ) → ℤ
exit_code none = negsuc 0
exit_code (some code) = code_or_minus_one code

abbrev pub failed_to_execute : Text → Text
failed_to_execute command = codes "failed to execute command: " ++ command

module _ {S : Type 0} (processes : Processes S) where
  abbrev pub output_reply : Text → ℕ → Option (Result IoError Output) → Result Error ControlResponse
  output_reply command secs none = ok (timed_out secs)
  output_reply command secs (some (err e)) = err (io_context (failed_to_execute command) e)
  output_reply command secs (some (ok output)) = ok (
      exec_result (code_or_minus_one output.status) (processes.from_utf8_lossy output.stdout)
        (processes.from_utf8_lossy output.stderr) false)

module _ {W S : Type 0} (processes : Processes S) (state : ServerState) where
  unfoldable pub execute_command : ExecRequest → Daemon W S ControlResponse
  execute_command request =
      if all is_blank request.command
      then throw (bail (codes "command must not be empty"))
      else λ world.
          let secs = timeout_of request.timeout_secs state.exec_timeout in
          let result = processes.run request.command request.args request.cwd secs world.fs in
          (output_reply processes request.command secs result.0, record world { fs = result.1 })

module _ {S : Type 0} (host : Host S) where
  abbrev pub reply_of : Result Error ControlResponse → ControlResponse
  reply_of (ok reply) = reply
  reply_of (err e) = error exec_failed (to_string host e)

module _ {W S : Type 0} ⦃w : AsyncWrite W⦄ (host : Host S) (request_id : ℕ) where
  -- `Err(err) => write_json_frame(.., Error { ExecFailed, err.to_string() })`
  abbrev pub or_exec_failed : Daemon W S (Unit {0}) → Daemon W S (Unit {0})
  or_exec_failed action world = elim (action world).0 [
    | ok done ↦ (ok tt, (action world).1)
    | err e ↦ respond host request_id (error exec_failed (to_string host e)) (action world).1
  ]

module _ {W S : Type 0} ⦃w : AsyncWrite W⦄ (host : Host S) (processes : Processes S)
    (state : ServerState) (request_id : ℕ) where
  -- What follows the loop: the exit status, or the deadline's error where the loop still runs.
  abbrev pub after_loop : ℕ → Pump → Daemon W S (Unit {0})
  after_loop secs pump =
      if is_running pump
      then respond host request_id (timed_out secs)
      else respond host request_id (exec_result (exit_code pump.exit_status) [] [] false)

  unfoldable pub stream_command_output : ExecRequest → Daemon W S (Unit {0})
  unfolding drive
  stream_command_output request =
      if all is_blank request.command then throw (bail (codes "command must not be empty")) else do
        let secs = timeout_of request.timeout_secs state.exec_timeout
        events ←
            on_fs (io_context (failed_to_execute request.command))
              (processes.spawn request.command request.args request.cwd secs)
        pump ← drive request_id (codes "failed to wait for exec process") events start
        after_loop secs pump

  unfoldable pub handle_exec_request : ExecRequest → Daemon W S (Unit {0})
  unfolding stream_command_output execute_command
  handle_exec_request request =
      if request.stream_output
      then or_exec_failed host request_id (stream_command_output request)
      else λ world.
          let result = execute_command processes state request world in
          respond host request_id (reply_of host result.0) result.1
