-- ===== src/Client/ShellSession.antt =====
-- `rsdb shell`: run_shell_session, its reading task and the pump of the local input
-- (crates/rsdb-cli/src/main.rs). What becomes ready in the `select!` loop, and in which order, is a
-- list of events. The buffered writer is flushed after each frame, so that a frame goes out when it is
-- written. The terminal's raw mode is left out, and the channel between task and loop has room.
pub mod Typed
pub mod Runs
use rsdb.Base.{
  ℕ, zero, suc, ℤ, pos, negsuc, Bool, true, false, not, ◌&&◌, Option, none, some, List, [], ◌∷◌,
  ◌++◌, map, Result, ok, err, map_err, leb, ◌==◌, if◌then◌else◌,
}
use rsdb.Base.Exec.{Exec, pure, throw, lift, map_error, ◌>>=◌, ◌>>◌}
use rsdb.Base.Texts.{Text, Bytes, codes, is_empty}
use rsdb.Proto.Wire.{
  FrameKind, FrameHeader, Frame, StreamFrameHeader, StreamChannel, ProtocolError, IoError, io,
  stream, request, response, stdin, stdout, stderr, file,
}
use rsdb.Proto.Messages.{ControlRequest, ControlResponse, shell, shell_started, shell_exit, error}
use rsdb.Proto.Io.{AsyncWrite}
use rsdb.Proto.Frames.{
  Serde, write_json_frame, write_stream_frame, read_frame_into, decode_stream_frame_header,
  decode_json,
}
use rsdb.Daemon.Error.{Error, bail, with_context, from_protocol}
use rsdb.Daemon.Host.{Host, World, Daemon, on_out, to_string}
use rsdb.Daemon.Session.Input.{other_error}
use rsdb.Client.Batch.Receive.{client_request_id}
use rsdb.Client.Batch.Exchange.{read_response}
use rsdb.Client.Agent.Failure.{error_code_name}

pub data StdinChunk : Type 0 where
  typed : Bytes → StdinChunk
  eof : StdinChunk
  unread : Text → StdinChunk

-- The reads of the local input as the pump sends them; `show` gives the text of an error.
unfoldable pub start_stdin_pump : (IoError → Text) → List (Result IoError Bytes) → List StdinChunk
start_stdin_pump show [] = []
start_stdin_pump show (err e ∷ reads) = unread (show e) ∷ []
start_stdin_pump show (ok [] ∷ reads) = eof ∷ []
start_stdin_pump show (ok (b ∷ read) ∷ reads) = typed (b ∷ read) ∷ start_stdin_pump show reads

-- What the reading task sends to the loop.
abbrev pub Message : Type 0
Message = Result ProtocolError Frame

-- `write_all` and `flush` of the local outputs.
pub record Outputs (T : Type 0) : Type 0 where
  pub write_stdout : Bytes → Exec T IoError (Unit {0})
  pub write_stderr : Bytes → Exec T IoError (Unit {0})

-- How a round of the reading task ends: with messages, and with an end or not.
pub record ReadRound (T : Type 0) : Type 0 where
  pub messages : List Message
  pub ended : Bool
  pub outputs : T

module _ {T : Type 0} (local : Outputs T) where
  abbrev break_with : ProtocolError → T → ReadRound T
  break_with e t = record { messages = err e ∷ []; ended = true; outputs = t }

  abbrev go_on : T → ReadRound T
  go_on t = record { messages = []; ended = false; outputs = t }

  abbrev after_write : Result IoError (Unit {0}) × T → ReadRound T
  after_write (ok done, t) = go_on t
  after_write (err e, t) = break_with (io e) t

  -- A chunk that is not empty goes to the output of its channel.
  abbrev print_chunk : StreamChannel → Bytes → T → ReadRound T
  print_chunk stdout payload t = after_write (local.write_stdout payload t)
  print_chunk stderr payload t = after_write (local.write_stderr payload t)
  print_chunk channel payload t = break_with other_error t

  abbrev on_stream_frame : Result ProtocolError StreamFrameHeader → Bytes → T → ReadRound T
  on_stream_frame (err e) payload t = break_with e t
  on_stream_frame (ok chunk) payload t =
      if not (chunk.request_id == client_request_id)
      then break_with other_error t
      else if is_empty payload
      then go_on t
      else print_chunk chunk.channel payload t

  abbrev on_frame : Result ProtocolError (FrameHeader × Bytes) → T → ReadRound T
  on_frame (err e) t = break_with e t
  on_frame (ok (header, payload)) t = elim header.kind [
    | stream ↦ on_stream_frame (decode_stream_frame_header header) payload t
    | other ↦ record {
      messages = ok (record { header = header; payload = payload }) ∷ [];
      ended = false;
      outputs = t;
    }
  ]

  -- The task, over what arrives: its messages. Each round takes a frame.
  unfoldable pub read_shell_frames : ℕ → Bytes → T → List Message × T
  unfolding read_frame_into decode_stream_frame_header
  read_shell_frames zero inbox t = ([], t)
  read_shell_frames (suc fuel) inbox t =
      let round = on_frame (read_frame_into inbox).0 t in
      let rest = read_shell_frames fuel (read_frame_into inbox).1 round.outputs in
      if round.ended then (round.messages, round.outputs) else (round.messages ++ rest.0, rest.1)

-- What is ready in a round of the loop: a chunk of the local input, or a message of the reading task;
-- `none` where the other side is gone.
pub data SessionEvent : Type 0 where
  chunk : Option StdinChunk → SessionEvent
  message : Option Message → SessionEvent

-- After a round: whether the input is open, or the status of the shell.
pub data Turn : Type 0 where
  running : Bool → Turn
  exited : ℤ → Turn

abbrev shell_request :
    Option Text → List Text → Bool → Option (Text × Option ℕ × Option ℕ) → ControlRequest
shell_request command args interactive none = shell command args interactive none none none
shell_request command args interactive (some (term, rows, cols)) =
    shell command args interactive (some term) rows cols

module _ {W S : Type 0} ⦃w : AsyncWrite W⦄ (host : Host S) (show : ControlResponse → Text)
    (show_kind : FrameKind → Text) where
  abbrev send_input : Text → Bool → Bytes → Daemon W S (Unit {0})
  send_input context last bytes =
      map_error (with_context context)
        (on_out (write_stream_frame client_request_id stdin last bytes))

  unfoldable pub on_chunk : Option StdinChunk → Daemon W S Turn
  on_chunk (some (typed bytes)) = do
    send_input (codes "failed to forward stdin") false bytes
    pure (running true)
  on_chunk (some eof) = do
    send_input (codes "failed to finish stdin stream") true []
    pure (running false)
  on_chunk none = do
    send_input (codes "failed to finish stdin stream") true []
    pure (running false)
  on_chunk (some (unread reason)) = throw (bail (codes "failed to read local stdin: " ++ reason))

  abbrev remote_failure : {A : Type 0} → ControlResponse → Daemon W S A
  remote_failure (error code reason) =
      throw (bail (codes "remote error " ++ (error_code_name code ++ (codes ": " ++ reason))))
  remote_failure other = throw (bail (codes "unexpected response from daemon: " ++ show other))

  abbrev on_response : ControlResponse → Daemon W S Turn
  on_response (shell_exit status) = pure (exited status)
  on_response other = remote_failure other

  unfoldable pub on_message : Bool → Option Message → Daemon W S Turn
  unfolding decode_json error_code_name
  on_message stdin_open none = throw (bail (codes "shell connection closed unexpectedly"))
  on_message stdin_open (some (err e)) =
      throw (bail (codes "failed to read shell frame: " ++ to_string host (from_protocol e)))
  on_message stdin_open (some (ok frame)) = elim frame.header.kind [
    | response ↦ (do
      reply ← lift (
          map_err (λ e. with_context (codes "invalid response frame") (from_protocol e))
            (decode_json host.responses frame response))
      on_response reply)
    | other ↦ throw (bail (codes "unexpected frame kind during shell: " ++ show_kind other))
  ]

  -- One round. The local input is polled only while it is open.
  abbrev pub on_session_event : SessionEvent → Bool → Daemon W S Turn
  on_session_event (chunk c) stdin_open = if stdin_open then on_chunk c else pure (running false)
  on_session_event (message m) stdin_open = on_message stdin_open m

  -- The loop, until it ends or the events do: then it still waits, with its input open or not.
  unfoldable pub drive_session : List SessionEvent → Bool → Daemon W S Turn
  unfolding on_chunk on_message
  drive_session [] stdin_open = pure (running stdin_open)
  drive_session (event ∷ events) stdin_open = do
    turn ← on_session_event event stdin_open
    elim turn [ running still ↦ drive_session events still | exited status ↦ pure (exited status) ]

  abbrev expect_started : ControlResponse → Daemon W S (Unit {0})
  expect_started (shell_started command) = pure tt
  expect_started other = remote_failure other

  -- Over a connection that was opened. `terminal` is the name of the local terminal, with its rows and
  -- columns; it is asked for where the shell is interactive.
  unfoldable pub run_shell_session :
      Serde ControlRequest
      → Option Text
      → List Text
      → Bool
      → Option (Text × Option ℕ × Option ℕ)
      → List SessionEvent
      → Daemon W S Turn
  unfolding read_response drive_session
  run_shell_session requests command args interactive terminal events = do
    map_error (with_context (codes "failed to send shell request")) (
        on_out (
          write_json_frame requests request client_request_id
            (shell_request command args interactive terminal)))
    reply ← read_response host
    expect_started reply
    if interactive then drive_session events true else do
      send_input (codes "failed to close remote stdin") true []
      drive_session events false

-- `status` where it fits an exit code, and 1.
unfoldable pub normalize_exit_status : ℤ → ℕ
normalize_exit_status (pos n) = if leb n 255 then n else 1
normalize_exit_status (negsuc n) = 1
