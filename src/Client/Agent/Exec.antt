-- ===== src/Client/Agent/Exec.antt =====
-- `rsdb agent exec`: agent_exec_command, run_agent_exec and run_agent_exec_stream
-- (crates/rsdb-cli/src/main.rs). What is printed is a list of events; the error of a printing is left
-- out.
use rsdb.Base.{
  ℕ, zero, suc, ℤ, pos, negsuc, Bool, true, false, not, ◌&&◌, Option, none, some, List, [], ◌∷◌,
  ◌++◌, length, Result, ok, err, ◌==◌, if◌then◌else◌,
}
use rsdb.Base.Exec.{Exec, pure, throw, map_error, ◌>>=◌, ◌>>◌}
use rsdb.Base.Texts.{Text, Bytes, codes, is_empty}
use rsdb.Proto.Wire.{
  FrameKind, FrameHeader, StreamFrameHeader, StreamChannel, ProtocolError, request, response,
  stdout, stderr, stream,
}
use rsdb.Proto.Messages.{ControlRequest, ControlResponse, exec, exec_result, error}
use rsdb.Proto.Frames.{
  Serde, write_json_frame, read_frame_into, decode_stream_frame_header, decode_json_payload,
}
use rsdb.Proto.Io.{AsyncWrite}
use rsdb.Daemon.Error.{Error, message}
use rsdb.Daemon.Host.{Host, World, on_out, to_string}
use rsdb.Client.Failures.{map_transport_error, map_remote_error}
use rsdb.Client.Batch.Receive.{client_request_id, ensure_request_id}
use rsdb.Client.Agent.Failure.{
  Details, Failure, AgentExecData, AgentExecCompletionData, null, text, texts, or_null, count,
  client_bail, internal_agent_failure, exec_nonzero_failure, exec_nonzero_failure_from_completion,
}
use rsdb.Client.Agent.Remote.{Remote, unexpected}

-- `status != 0`
abbrev pub is_nonzero : ℤ → Bool
is_nonzero (pos n) = not (n == 0)
is_nonzero (negsuc n) = true

unfoldable pub into_non_empty_string : Text → Option Text
into_non_empty_string value = if is_empty value then none else some value

-- What is known of a command when it fails; `duration_ms` is the time it took.
abbrev pub command_details : Text → List Text → Option Text → Option ℕ → ℕ → Details
command_details program args cwd timeout_secs duration_ms =
    (codes "command", text program)
    ∷ (codes "args", texts args)
    ∷ (codes "cwd", or_null cwd)
    ∷ (codes "timeout_secs", elim timeout_secs [ none ↦ null | some n ↦ count n ])
    ∷ (codes "duration_ms", count duration_ms)
    ∷ []

-- An event that is printed, one on each line.
pub data AgentEvent : Type 0 where
  stdout_chunk stderr_chunk : (target : Option Text) (chunk : Text) → AgentEvent
  completed : AgentExecCompletionData → AgentEvent
  failed : Failure → AgentEvent

-- The channel of an output, `None` for the others.
abbrev pub output_event : StreamChannel → Option Text → Text → List AgentEvent
output_event stdout target chunk = stdout_chunk target chunk ∷ []
output_event stderr target chunk = stderr_chunk target chunk ∷ []
output_event channel target chunk = []

-- An output that a response carries.
abbrev pub chunk_event : StreamChannel → Option Text → Text → List AgentEvent
chunk_event channel target chunk = if is_empty chunk then [] else output_event channel target chunk

-- The end of a command that was told to stop with a failure.
abbrev pub stop : Failure → List AgentEvent × ℤ
stop failure = (failed failure ∷ [], pos 1)

-- What was printed, and the exit code; `none` where the loop of the model was given too little fuel.
abbrev pub Printed : Type 0
Printed = Option (List AgentEvent × ℤ)

-- Events before those that follow.
abbrev pub print_first : List AgentEvent → Printed → Printed
print_first events none = none
print_first events (some (later, code)) = some (events ++ later, code)

-- What the stream of a command is read with: the decoder of responses, the text of a protocol error,
-- `from_utf8_lossy`, and `{:?}` of a response and of a frame kind.
pub record Reading : Type 0 where
  pub responses : Serde ControlResponse
  pub show_protocol : ProtocolError → Text
  pub lossy : Bytes → Text
  pub show : ControlResponse → Text
  pub show_kind : FrameKind → Text

abbrev stop_internal : Text → List AgentEvent × ℤ
stop_internal reason = stop (internal_agent_failure (client_bail reason))

-- The text of a `bail!`.
abbrev bail_text : Error → Text
bail_text (message reason ∷ causes) = reason
bail_text causes = []

module _ (reading : Reading) (target : Text) (response_target : Option Text) (check : Bool)
    (details : Details) where
  -- The end of a command that has a status.
  abbrev pub finish : AgentExecCompletionData → List AgentEvent × ℤ
  finish result =
      if check && is_nonzero result.status
      then (failed (exec_nonzero_failure_from_completion target result) ∷ [], result.status)
      else (completed result ∷ [], pos 0)

  -- The response that ends a command.
  unfoldable pub exec_response : ControlResponse → List AgentEvent × ℤ
  unfolding exec_nonzero_failure_from_completion map_remote_error internal_agent_failure
  exec_response (exec_result status out errors timed_out) =
      let (later, code) =
        finish (record { target = response_target; status = status; timed_out = timed_out }) in
      (
        chunk_event stdout response_target out
            ++ (chunk_event stderr response_target errors ++ later),
        code,
      )
  exec_response (error code reason) =
      stop (map_remote_error (codes "exec") target code reason details)
  exec_response other =
      stop_internal (codes "unexpected response from daemon: " ++ reading.show other)

  -- A stream frame; `rest` is what comes of the frames that follow it.
  abbrev pub exec_chunk : Result ProtocolError StreamFrameHeader → Bytes → Printed → Printed
  exec_chunk (err e) payload rest =
      some (stop_internal (codes "invalid stream frame: " ++ reading.show_protocol e))
  exec_chunk (ok chunk) payload rest = elim (ensure_request_id chunk.request_id client_request_id) [
    | err e ↦ some (stop_internal (bail_text e))
    | ok done ↦
        if is_empty payload
        then rest
        else print_first (output_event chunk.channel response_target (reading.lossy payload)) rest
  ]

  abbrev pub exec_end : Result ProtocolError ControlResponse → List AgentEvent × ℤ
  exec_end (err e) = stop_internal (codes "invalid response frame: " ++ reading.show_protocol e)
  exec_end (ok reply) = exec_response reply

  abbrev pub exec_frame : FrameHeader → Bytes → Printed → Printed
  exec_frame header payload rest = elim header.kind [
    | stream ↦ exec_chunk (decode_stream_frame_header header) payload rest
    | response ↦ some (exec_end (decode_json_payload reading.responses header payload response))
    | other ↦ some (
        stop_internal
          (codes "unexpected frame kind during exec stream: " ++ reading.show_kind other))
  ]

  -- The error loses its chain: `anyhow!("{err}")`.
  abbrev pub unread_frame : ProtocolError → List AgentEvent × ℤ
  unread_frame e =
      stop (
        map_transport_error (codes "exec") (some target) (client_bail (reading.show_protocol e)) [])

  abbrev pub exec_round : Result ProtocolError (FrameHeader × Bytes) → Printed → Printed
  exec_round (err e) rest = some (unread_frame e)
  exec_round (ok (header, payload)) rest = exec_frame header payload rest

  -- The loop over the frames; each takes some of what has arrived.
  unfoldable pub exec_stream_loop : ℕ → Bytes → Printed
  unfolding exec_response read_frame_into decode_stream_frame_header decode_json_payload
      ensure_request_id map_transport_error internal_agent_failure
  exec_stream_loop zero inbox = none
  exec_stream_loop (suc fuel) inbox =
      let rest = exec_stream_loop fuel (read_frame_into inbox).1 in
      exec_round (read_frame_into inbox).0 rest

module _ {W S : Type 0} ⦃w : AsyncWrite W⦄ (host : Host S) (reading : Reading)
    (requests : Serde ControlRequest) (target : Text) (response_target : Option Text) where
  -- Over a connection that was opened; what is read later is what has arrived. The last number is
  -- the time that the command took.
  unfoldable pub run_agent_exec_stream :
      Text → List Text → Option Text → Option ℕ → Bool → ℕ → Exec (World W S) Failure Printed
  unfolding exec_stream_loop internal_agent_failure
  run_agent_exec_stream program args cwd timeout_secs check duration_ms = do
    map_error
        (λ e.
          internal_agent_failure
            (client_bail (codes "failed to send exec request: " ++ to_string host e)))
        (on_out (
          write_json_frame requests request client_request_id
            (exec program args cwd timeout_secs true)))
    (λ world. (
      ok (
          exec_stream_loop reading target response_target check
            (command_details program args cwd timeout_secs duration_ms) (suc (length world.inbox))
            world.inbox),
      world,
    ))

module _ {S : Type 0} (remote : Remote S) (target : Text) (response_target : Option Text) where
  -- The result of a command that is not streamed.
  abbrev exec_reply : Bool → Details → ControlResponse → Exec S Failure AgentExecData
  exec_reply check details (exec_result status out errors timed_out) =
      let result : AgentExecData = record {
        target = response_target;
        status = status;
        timed_out = timed_out;
        stdout = into_non_empty_string out;
        stderr = into_non_empty_string errors;
      } in
      if check && is_nonzero status then throw (exec_nonzero_failure target result) else pure result
  exec_reply check details (error code reason) =
      throw (map_remote_error (codes "exec") target code reason details)
  exec_reply check details other = unexpected remote other

  unfoldable pub run_agent_exec :
      Text → List Text → Option Text → Option ℕ → Bool → ℕ → Exec S Failure AgentExecData
  unfolding into_non_empty_string exec_nonzero_failure map_remote_error map_transport_error
      internal_agent_failure
  run_agent_exec program args cwd timeout_secs check duration_ms = do
    reply ←
        map_error (λ e. map_transport_error (codes "exec") (some target) e [])
          (remote.request target (exec program args cwd timeout_secs false))
    exec_reply check (command_details program args cwd timeout_secs duration_ms) reply
