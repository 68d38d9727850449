-- ===== src/Daemon/Server.antt =====
-- Connections: what the daemon does with a request, and with a discovery datagram
-- (device/rsdbd/src/main.rs).
pub mod Answered
pub mod Replies
mod Runs
use rsdb.Base.{
  ℕ, Bool, true, false, not, Option, none, some, List, [], ◌∷◌, ◌++◌, Result, ok, err, map_err,
  if◌then◌else◌,
}
use rsdb.Base.Exec.{pure, throw, lift, ◌>>=◌, ◌>>◌}
use rsdb.Base.Texts.{Text, Bytes, codes}
use rsdb.Proto.Wire.{ProtocolError, io, request, protocol_version, unexpected_eof, Frame}
use rsdb.Proto.Messages.{
  CapabilitySet, DiscoveryRequest, DiscoveryResponse, probe, ControlRequest, ping, get_capabilities,
  exec, fs_stat, fs_list, fs_read, fs_write, fs_mkdir, fs_rm, fs_move, push, pull, push_batch,
  pull_batch, shell, pong, capabilities, ErrorCode, file_transfer_failed,
}
use rsdb.Proto.Io.{AsyncWrite}
use rsdb.Proto.Frames.{
  Serde, read_frame, decode_json, encode_discovery_message, decode_discovery_message,
}
use rsdb.Daemon.Error.{
  Error, bail, from_protocol, classify_fs_error, classify_pull_error, io_kind_eq,
}
use rsdb.Daemon.Host.{Host, World, Daemon, respond}
use rsdb.Daemon.Buffer.{BufWriter}
use rsdb.Daemon.Fs.Inspect.{handle_fs_stat, handle_fs_list, handle_fs_read}
use rsdb.Daemon.Fs.Write.{handle_fs_write}
use rsdb.Daemon.Fs.Tree.{handle_fs_mkdir, handle_fs_rm, handle_fs_move}
use rsdb.Daemon.Transfer.Push.{handle_push, handle_push_batch}
use rsdb.Daemon.Transfer.Pull.{handle_pull}
use rsdb.Daemon.Transfer.Stream.{handle_pull_batch}
use rsdb.Daemon.Session.Process.{ServerState, Processes}
use rsdb.Daemon.Session.Command.{handle_exec_request}
use rsdb.Daemon.Session.Shell.{handle_shell, send_error}

-- The static of the function `capabilities`.
abbrev pub capability_set : CapabilitySet
capability_set = record {
  protocol_version = protocol_version;
  transports = codes "tcp" ∷ codes "udp-discovery" ∷ [];
  security = codes "none" ∷ [];
  features =
      codes "discover.udp"
      ∷ codes "ping"
      ∷ codes "capability"
      ∷ codes "exec.direct"
      ∷ codes "exec.stream"
      ∷ codes "agent.exec.v1"
      ∷ codes "agent.fs.stat.v1"
      ∷ codes "agent.fs.list.v1"
      ∷ codes "agent.fs.read.v1"
      ∷ codes "agent.fs.write.v1"
      ∷ codes "agent.fs.mkdir.v1"
      ∷ codes "agent.fs.rm.v1"
      ∷ codes "agent.fs.move.v1"
      ∷ codes "agent.transfer.push.v1"
      ∷ codes "agent.transfer.pull.v1"
      ∷ codes "shell.exec"
      ∷ codes "shell.interactive"
      ∷ codes "shell.pty"
      ∷ codes "fs.push"
      ∷ codes "fs.pull"
      ∷ codes "fs.push.batch"
      ∷ codes "fs.pull.batch"
      ∷ [];
}

-- One round of `handle_discovery`: the datagram that answers one, if any does.
unfoldable pub answer_discovery :
    Serde DiscoveryRequest
    → Serde DiscoveryResponse
    → ServerState
    → Bytes
    → Result ProtocolError (Option Bytes)
unfolding decode_discovery_message encode_discovery_message
answer_discovery requests responses state datagram =
    elim (decode_discovery_message requests datagram) [
      | err e ↦ ok none
      | ok (probe nonce) ↦
          elim (encode_discovery_message responses (record {
            nonce = nonce;
            server_id = state.server_id;
            device_name = state.device_name;
            platform = state.platform;
            tcp_port = state.tcp_port;
            protocol_version = protocol_version;
            features = capability_set.features;
          })) [ ok payload ↦ ok (some payload) | err e ↦ err e ]
    ]

module _ {W S : Type 0} ⦃w : AsyncWrite W⦄ (host : Host S) (request_id : ℕ) where
  -- `if let Err(err) = .. { let code = ..; send_error(.., code, err).await?; }`
  abbrev pub or_error : (Error → ErrorCode) → Daemon W S (Unit {0}) → Daemon W S (Unit {0})
  or_error classify action world = elim (action world).0 [
    | ok done ↦ (ok tt, (action world).1)
    | err e ↦ send_error host request_id (classify e) e (action world).1
  ]

-- A connection that is closed before its first frame is not an error.
abbrev or_closed : Result ProtocolError Frame → Result Error (Option Frame)
or_closed (ok frame) = ok (some frame)
or_closed (err (io e)) =
    if io_kind_eq e.kind unexpected_eof then ok none else err (from_protocol (io e))
or_closed (err e) = err (from_protocol e)

module _ {B W S : Type 0} ⦃w : AsyncWrite W⦄ (buf : BufWriter B W) (host : Host S)
    (processes : Processes S) (state : ServerState) (fuel : ℕ)
    (requests : Serde ControlRequest) where
  -- The fuel bounds how deep the directories of a listing or of a pull are nested.
  unfoldable pub handle_request : ℕ → ControlRequest → Daemon W S (Unit {0})
  unfolding send_error
  handle_request request_id ping = respond host request_id (pong state.server_id protocol_version)
  handle_request request_id get_capabilities =
      respond host request_id (capabilities state.server_id capability_set)
  handle_request request_id (exec command args cwd timeout_secs stream_output) =
      handle_exec_request host processes state request_id (record {
        command = command;
        args = args;
        cwd = cwd;
        timeout_secs = timeout_secs;
        stream_output = stream_output;
      })
  handle_request request_id (fs_stat path hash) =
      or_error host request_id classify_fs_error (handle_fs_stat host request_id path hash)
  handle_request request_id (fs_list path recursive max_depth include_hidden hash) =
      or_error host request_id classify_fs_error
        (handle_fs_list host request_id fuel path recursive max_depth include_hidden hash)
  handle_request request_id (fs_read path encoding max_bytes) =
      or_error host request_id classify_fs_error
        (handle_fs_read host request_id path encoding max_bytes)
  handle_request request_id
        (fs_write path content encoding mode create_parent atomic if_missing if_sha256) =
      or_error host request_id classify_fs_error (
        handle_fs_write host request_id path content encoding mode create_parent atomic if_missing
          if_sha256)
  handle_request request_id (fs_mkdir path parents mode) =
      or_error host request_id classify_fs_error (handle_fs_mkdir host request_id path parents mode)
  handle_request request_id (fs_rm path recursive force if_exists) =
      or_error host request_id classify_fs_error
        (handle_fs_rm host request_id path recursive force if_exists)
  handle_request request_id (fs_move source destination overwrite) =
      or_error host request_id classify_fs_error
        (handle_fs_move host request_id source destination overwrite)
  handle_request request_id (push path mode source_name) =
      or_error host request_id (λ e. file_transfer_failed)
        (handle_push host request_id path mode source_name)
  handle_request request_id (pull path) =
      or_error host request_id classify_pull_error (handle_pull buf host request_id path)
  handle_request request_id (push_batch destination roots entries) =
      or_error host request_id (λ e. file_transfer_failed)
        (handle_push_batch host request_id destination roots entries)
  handle_request request_id (pull_batch sources) =
      or_error host request_id classify_pull_error
        (handle_pull_batch buf host request_id fuel sources)
  handle_request request_id (shell command args pty term rows cols) =
      handle_shell host processes state request_id (record {
        command = command;
        args = args;
        pty = if pty then some (record { term = term; rows = rows; cols = cols }) else none;
      })

  -- The frame of the request, or the end of a connection that sent none. `in_time` is false where
  -- the time for the request is over before the frame is there.
  abbrev first_frame : Bool → Daemon W S (Option Frame)
  first_frame in_time world =
      if not in_time
      then (err (bail (codes "timed out waiting for initial request after 30 seconds")), world)
      else let read = read_frame world.inbox in (or_closed read.0, record world { inbox = read.1 })

  -- `handle_connection`, from the first frame on.
  unfoldable pub handle_connection : Bool → Daemon W S (Unit {0})
  unfolding handle_request
  handle_connection in_time = do
    first ← first_frame in_time
    elim first [
      | none ↦ pure tt
      | some frame ↦ do
        message ← lift (map_err from_protocol (decode_json requests frame request))
        handle_request frame.header.request_id message
    ]
