-- ===== src/Client/Requests.antt =====
-- Requests over connections of their own: open_tcp_connection, request, the transfers, and the
-- commands that send one request (crates/rsdb-cli/src/main.rs).
use rsdb.Base.{
  ℕ, Bool, true, false, not, Option, none, some, List, [], ◌∷◌, ◌++◌, Result, ok, err, ◌==◌,
  if◌then◌else◌,
}
use rsdb.Base.Exec.{Exec, pure, throw, map_error, ◌>>=◌, ◌>>◌}
use rsdb.Base.Texts.{Text, Bytes, codes, decimal}
use rsdb.Proto.Wire.{IoError, request, protocol_version}
use rsdb.Proto.Messages.{
  ControlRequest, ControlResponse, ErrorCode, CapabilitySet, AgentFsStat, AgentFsListEntry,
  AgentFsReadResult, AgentFsWriteResult, HashAlgorithm, ContentEncoding, ping, get_capabilities,
  pong, capabilities, error, fs_not_found, fs_read, fs_write, fs_read_result, fs_write_result,
}
use rsdb.Proto.Messages
use rsdb.Proto.Io.{AsyncWrite}
use rsdb.Proto.Frames.{Serde, write_json_frame}
use rsdb.Daemon.Buffer.{BufWriter}
use rsdb.Daemon.Host.{Host, on_out}
use rsdb.Daemon.Error.{with_context}
use rsdb.Client.Failures.{ClientError, elapsed, io_cause}
use rsdb.Client.Batch.Receive.{client_request_id}
use rsdb.Client.Batch.Exchange.{
  Session, own, read_response, execute_push_manifest, execute_pull_with_progress,
}
use rsdb.Client.Agent.Failure.{client_bail, client_context, client_fault, remote_error}
use rsdb.Client.Agent.Remote.{Remote}

-- How an attempt to connect ends within its time: with what will arrive and the writing half, with an
-- error, or not at all.
pub data Attempt (W : Type 0) : Type 0 where
  connected : Bytes → W → Attempt W
  refused : IoError → Attempt W
  timed_out : Attempt W

-- TCP: `TcpStream::connect` under a timeout in seconds, `set_nodelay`, and what the device does once
-- a connection is dropped.
pub record Link (W S : Type 0) : Type 0 where
  pub connect : ℕ → Text → S → Attempt W × S
  pub set_nodelay : W → Result IoError (Unit {0})
  pub hang_up : W → S → S

module _ {W S : Type 0} (host : Host S) (link : Link W S) where
  abbrev io_error : Text → IoError → ClientError
  io_error reason e =
      client_context reason (record { chain = io_cause e ∷ []; text = host.show_io e })

  abbrev ready : Bytes → W → Result IoError (Unit {0}) → Result ClientError (Bytes × W)
  ready inbox out (ok done) = ok (inbox, out)
  ready inbox out (err e) = err (io_error (codes "failed to set TCP_NODELAY") e)

  abbrev connection : Text → Attempt W → Result ClientError (Bytes × W)
  connection addr (connected inbox out) = ready inbox out (link.set_nodelay out)
  connection addr (refused e) = err (io_error (codes "failed to connect to " ++ addr) e)
  connection addr timed_out = err (
      client_context (codes "connection timed out")
        (record { chain = elapsed ∷ []; text = codes "deadline has elapsed" }))

  unfoldable pub open_tcp_connection : ℕ → Text → Exec S ClientError (Bytes × W)
  open_tcp_connection secs addr s =
      let attempt = link.connect secs addr s in (connection addr attempt.0, attempt.1)

  -- A session over a connection of its own, which is dropped at its end.
  abbrev pub over_connection : {A : Type 0} → ℕ → Text → Session W S A → Exec S ClientError A
  over_connection secs addr session = do
    (inbox, out) ← open_tcp_connection secs addr
    (λ s.
        let ended =
          map_error (client_fault host) session (record { inbox = inbox; out = out; fs = s }) in
        (ended.0, link.hang_up ended.1.out ended.1.fs))

module _ {W S : Type 0} ⦃w : AsyncWrite W⦄ (host : Host S) (link : Link W S)
    (requests : Serde ControlRequest) where
  abbrev one_request : Text → ControlRequest → Session W S ControlResponse
  one_request context message = own do
    map_error (with_context context)
        (on_out (write_json_frame requests request client_request_id message))
    read_response host

  unfoldable pub request_over : Text → ControlRequest → Exec S ClientError ControlResponse
  unfolding open_tcp_connection read_response
  request_over addr message =
      over_connection host link 5 addr (one_request (codes "failed to send request") message)

  unfoldable pub probe_ping : Text → Exec S ClientError ControlResponse
  unfolding open_tcp_connection read_response
  probe_ping addr =
      over_connection host link 1 addr (one_request (codes "failed to send ping") ping)

module _ {B W S : Type 0} ⦃w : AsyncWrite W⦄ (buf : BufWriter B W) (show : ControlResponse → Text)
    (requests : Serde ControlRequest) (host : Host S) (link : Link W S) where
  -- The device over TCP.
  unfoldable pub tcp_remote : Remote S
  unfolding request_over execute_push_manifest execute_pull_with_progress open_tcp_connection
  tcp_remote = record {
    request = request_over host link requests;
    push = λ addr manifest path.
        over_connection host link 5 addr
          (execute_push_manifest buf show requests host manifest path);
    pull = λ addr sources destination.
        over_connection host link 5 addr
          (execute_pull_with_progress buf show requests host sources destination);
    show = show;
  }

-- A version other than the client's own is worth a warning.
unfoldable pub protocol_warning_label : ℕ → Text
protocol_warning_label version =
    codes "protocol mismatch (host="
    ++ (decimal protocol_version ++ (codes " daemon=" ++ (decimal version ++ codes ")")))

unfoldable pub protocol_warning_text : ℕ → Option Text
unfolding protocol_warning_label
protocol_warning_text version =
    if not (version == protocol_version) then some (protocol_warning_label version) else none

module _ {S : Type 0} (remote : Remote S) (addr : Text) where
  abbrev unexpected_response : {A : Type 0} → Text → ControlResponse → Exec S ClientError A
  unexpected_response reason other = throw (client_bail (reason ++ remote.show other))

  abbrev expect_pong : ControlResponse → Exec S ClientError (ℕ × Option Text)
  expect_pong (pong server_id version) = pure (version, protocol_warning_text version)
  expect_pong other = unexpected_response (codes "unexpected response: ") other

  -- The version of the daemon, and the warning.
  unfoldable pub ping_command : Exec S ClientError (ℕ × Option Text)
  unfolding protocol_warning_text
  ping_command = do response ← remote.request addr ping; expect_pong response

  abbrev expect_capabilities : ControlResponse → Exec S ClientError (Text × CapabilitySet)
  expect_capabilities (capabilities server_id capability) = pure (server_id, capability)
  expect_capabilities other = unexpected_response (codes "unexpected response: ") other

  unfoldable pub capability_command : Exec S ClientError (Text × CapabilitySet)
  capability_command = do
    response ← remote.request addr get_capabilities
    expect_capabilities response

  abbrev from_daemon : Text
  from_daemon = codes "unexpected response from daemon: "

  abbrev stat_or_error : ControlResponse → Exec S ClientError AgentFsStat
  stat_or_error (Messages.ControlResponse.fs_stat stat) = pure stat
  stat_or_error (error code message) = throw (remote_error code message)
  stat_or_error other = unexpected_response from_daemon other

  unfoldable pub remote_fs_stat : Text → Option HashAlgorithm → Exec S ClientError AgentFsStat
  unfolding remote_error
  remote_fs_stat path hash = do
    response ← remote.request addr (ControlRequest.fs_stat path hash)
    stat_or_error response

  abbrev read_or_error : ControlResponse → Exec S ClientError AgentFsReadResult
  read_or_error (fs_read_result result) = pure result
  read_or_error (error code message) = throw (remote_error code message)
  read_or_error other = unexpected_response from_daemon other

  unfoldable pub remote_fs_read :
      Text → ContentEncoding → Option ℕ → Exec S ClientError AgentFsReadResult
  unfolding remote_error
  remote_fs_read path encoding max_bytes = do
    response ← remote.request addr (fs_read path encoding max_bytes)
    read_or_error response

  abbrev write_or_error : ControlResponse → Exec S ClientError AgentFsWriteResult
  write_or_error (fs_write_result result) = pure result
  write_or_error (error code message) = throw (remote_error code message)
  write_or_error other = unexpected_response from_daemon other

  unfoldable pub remote_fs_write :
      Text
      → Text
      → ContentEncoding
      → Option ℕ
      → Bool
      → Option Text
      → Exec S ClientError AgentFsWriteResult
  unfolding remote_error
  remote_fs_write path content encoding mode atomic if_sha256 = do
    response ←
        remote.request addr (fs_write path content encoding mode false atomic false if_sha256)
    write_or_error response

  -- A directory that is not there has no entries.
  abbrev entries_or_error : ControlResponse → Exec S ClientError (List AgentFsListEntry)
  entries_or_error (Messages.ControlResponse.fs_list entries) = pure entries
  entries_or_error (error fs_not_found message) = pure []
  entries_or_error (error Messages.ErrorCode.not_found message) = pure []
  entries_or_error (error code message) = throw (remote_error code message)
  entries_or_error other = unexpected_response from_daemon other

  unfoldable pub remote_fs_list_completion : Text → Exec S ClientError (List AgentFsListEntry)
  unfolding remote_error
  remote_fs_list_completion path = do
    response ← remote.request addr (ControlRequest.fs_list path false none true none)
    entries_or_error response
