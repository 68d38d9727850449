-- ===== src/Daemon/Session/Pump.antt =====
-- The `select!` loop of stream_command_output and handle_pipe_shell (device/rsdbd/src/main.rs).
-- What becomes ready, and in which order, is a list of events. The writer's buffer is flushed after
-- each frame, so that a frame goes out when it is written.
use rsdb.Base.{
  Bool, true, false, ◌||◌, Option, none, some, List, [], ◌∷◌, Result, ok, err, map_err, ℕ, ℤ,
  if◌then◌else◌,
}
use rsdb.Base.Exec.{pure, throw, lift, ◌>>=◌, ◌>>◌}
use rsdb.Base.Texts.{Text, Bytes}
use rsdb.Proto.Wire.{IoError, StreamChannel}
use rsdb.Proto.Wire
use rsdb.Proto.Io.{AsyncWrite}
use rsdb.Proto.Frames.{write_stream_frame}
use rsdb.Daemon.Error.{from_io}
use rsdb.Daemon.Host.{Daemon, io_context, on_out}

-- A branch of the `select!` that is ready: a read of the child's output, which is empty at its end,
-- or the child's exit, with its code where it was not killed.
pub data OutputEvent : Type 0 where
  stdout : Result IoError Bytes → OutputEvent
  stderr : Result IoError Bytes → OutputEvent
  exited : Result IoError (Option ℤ) → OutputEvent

-- The variables of the loop.
pub record Pump : Type 0 where
  pub stdout_open : Bool
  pub stderr_open : Bool
  pub exit_status : Option (Option ℤ)

abbrev pub start : Pump
start = record { stdout_open = true; stderr_open = true; exit_status = none }

abbrev pub is_none : {A : Type 0} → Option A → Bool
is_none none = true
is_none (some a) = false

-- The loop's condition.
abbrev pub is_running : Pump → Bool
is_running pump = pump.stdout_open || pump.stderr_open || is_none pump.exit_status

module _ {W S : Type 0} ⦃w : AsyncWrite W⦄ (request_id : ℕ) where
  -- One read, sent on its channel; whether the channel is still open.
  unfoldable pub forward : StreamChannel → Result IoError Bytes → Daemon W S Bool
  forward channel (err e) = throw (from_io e)
  forward channel (ok []) = do on_out (write_stream_frame request_id channel true []); pure false
  forward channel (ok (b ∷ read)) = do
    on_out (write_stream_frame request_id channel false (b ∷ read))
    pure true

  -- One round of the loop. A branch whose guard is off is not polled.
  unfoldable pub on_event : Text → OutputEvent → Pump → Daemon W S Pump
  unfolding forward
  on_event failed (stdout read) pump =
      if pump.stdout_open
      then (do still ← forward Wire.stdout read; pure (record pump { stdout_open = still }))
      else pure pump
  on_event failed (stderr read) pump =
      if pump.stderr_open
      then (do still ← forward Wire.stderr read; pure (record pump { stderr_open = still }))
      else pure pump
  on_event failed (exited status) pump =
      if is_none pump.exit_status
      then (do
        code ← lift (map_err (io_context failed) status)
        pure (record pump { exit_status = some code }))
      else pure pump

  -- The loop, until it ends or the events do.
  unfoldable pub drive : Text → List OutputEvent → Pump → Daemon W S Pump
  drive failed [] pump = pure pump
  drive failed (event ∷ events) pump =
      let next = on_event failed event pump >>= drive failed events in
      if is_running pump then next else pure pump
