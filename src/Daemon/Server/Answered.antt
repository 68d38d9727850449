-- ===== src/Daemon/Server/Answered.antt =====
-- Every request gets its answer: `handle_request` and `handle_connection`
-- (device/rsdbd/src/main.rs).
use rsdb.Base.{ℕ, ◌^◌, ◌≤◌, ◌<◌, Bool, true, false, Option, some, List, [], ◌++◌, length}
use rsdb.Base.{◌≡◌}
use rsdb.Base.Texts.{Text, Bytes}
use rsdb.Proto.Wire.{request, protocol_version, max_payload_len}
use rsdb.Proto.Messages.{
  HashAlgorithm, ContentEncoding, TransferRoot, TransferEntry, ControlRequest, ping,
  get_capabilities, exec, fs_stat, fs_list, fs_read, fs_write, fs_mkdir, fs_rm, fs_move, push, pull,
  push_batch, pull_batch, shell, pong, capabilities,
}
use rsdb.Proto.Io.{memory_writer}
use rsdb.Proto.Frames.{Serde, IsSerde, write_json_frame}
use rsdb.Daemon.Host.{Host, World}
use rsdb.Daemon.Buffer.{BufWriter}
use rsdb.Daemon.Fs.Inspect.{handle_fs_stat, handle_fs_list, handle_fs_read}
use rsdb.Daemon.Fs.Write.{handle_fs_write}
use rsdb.Daemon.Fs.Tree.{handle_fs_mkdir, handle_fs_rm, handle_fs_move}
use rsdb.Daemon.Transfer.Push.{handle_push, handle_push_batch}
use rsdb.Daemon.Transfer.Stream.{handle_pull_batch}
use rsdb.Daemon.Session.Process.{ServerState, Processes}
use rsdb.Daemon.Session.Command.{ExecRequest, handle_exec_request, stream_command_output}
use rsdb.Proto.Json.{decode_json-write_json_frame}
use rsdb.Daemon.Server.{handle_request, handle_connection, capability_set}
use rsdb.Daemon.Server.Replies.{
  Answers, Outcome, answered, ErrorsFit, continue-Answers, if-Answers, err-Answers, respond-Answers,
  Fits, or_error-Outcome, or_exec_failed-Outcome, respond-Answered,
}

module _ {S : Type 0} (host : Host S) (request_id : ℕ) (world : World Bytes S) where
  fs_stat-Answers :
      (path : Text) (hash : Option HashAlgorithm)
      → Answers host request_id (handle_fs_stat host request_id path hash world)
  unfolding handle_fs_stat
  fs_stat-Answers path hash = search (continue-Answers, respond-Answers)

  fs_list-Answers :
      (fuel : ℕ) (path : Text) (recursive : Bool) (max_depth : Option ℕ) (include_hidden : Bool)
      (hash : Option HashAlgorithm)
      → Answers host request_id
          (handle_fs_list host request_id fuel path recursive max_depth include_hidden hash world)
  unfolding handle_fs_list
  fs_list-Answers fuel path recursive max_depth include_hidden hash =
      search (continue-Answers, respond-Answers)

  fs_read-Answers :
      (path : Text) (encoding : ContentEncoding) (max_bytes : Option ℕ)
      → Answers host request_id (handle_fs_read host request_id path encoding max_bytes world)
  unfolding handle_fs_read
  fs_read-Answers path encoding max_bytes = search (continue-Answers, respond-Answers) depth 12

  fs_write-Answers :
      (path content : Text) (encoding : ContentEncoding) (mode : Option ℕ)
      (create_parent atomic if_missing : Bool) (if_sha256 : Option Text)
      → Answers host request_id (
          handle_fs_write host request_id path content encoding mode create_parent atomic if_missing
            if_sha256 world)
  unfolding handle_fs_write
  fs_write-Answers path content encoding mode create_parent atomic if_missing if_sha256 =
      search (continue-Answers, respond-Answers) depth 20

  fs_mkdir-Answers :
      (path : Text) (parents : Bool) (mode : Option ℕ)
      → Answers host request_id (handle_fs_mkdir host request_id path parents mode world)
  unfolding handle_fs_mkdir
  fs_mkdir-Answers path parents mode = search (continue-Answers, respond-Answers) depth 12

  fs_rm-Answers :
      (path : Text) (recursive force if_exists : Bool)
      → Answers host request_id (handle_fs_rm host request_id path recursive force if_exists world)
  unfolding handle_fs_rm
  fs_rm-Answers path recursive force if_exists = search (continue-Answers, respond-Answers) depth 12

  fs_move-Answers :
      (source destination : Text) (overwrite : Bool)
      → Answers host request_id (handle_fs_move host request_id source destination overwrite world)
  unfolding handle_fs_move
  fs_move-Answers source destination overwrite = search (continue-Answers, respond-Answers) depth 12

  push-Answers :
      (path : Text) (mode : ℕ) (source_name : Option Text)
      → Answers host request_id (handle_push host request_id path mode source_name world)
  unfolding handle_push
  push-Answers path mode source_name = search (continue-Answers, respond-Answers) depth 12

  push_batch-Answers :
      (destination : Text) (roots : List TransferRoot) (entries : List TransferEntry)
      → Answers host request_id (handle_push_batch host request_id destination roots entries world)
  unfolding handle_push_batch
  push_batch-Answers destination roots entries = search (continue-Answers, respond-Answers) depth 12

  pull_batch-Answers :
      {B : Type 0}
      → (buf : BufWriter B Bytes) (fuel : ℕ) (sources : List Text)
      → Answers host request_id (handle_pull_batch buf host request_id fuel sources world)
  unfolding handle_pull_batch
  pull_batch-Answers buf fuel sources =
      search (continue-Answers, if-Answers, err-Answers, respond-Answers) depth 12

module _ {S : Type 0} (host : Host S) (processes : Processes S) (state : ServerState)
    (request_id : ℕ) (world : World Bytes S) where
  exec-Answers :
      (exec_request : ExecRequest)
      → Answers host request_id
          (stream_command_output host processes state request_id exec_request world)
  unfolding stream_command_output
  exec-Answers exec_request =
      search (continue-Answers, if-Answers, err-Answers, respond-Answers) depth 12

-- The small replies of a host fit in a frame: errors with texts of up to 2 MiB, and the server's own.
pub record RepliesFit {S : Type 0} (host : Host S) (state : ServerState) : Type 0 where
  pub errors : ErrorsFit host
  pub pongs : Fits host (pong state.server_id protocol_version)
  pub own : Fits host (capabilities state.server_id capability_set)

-- The requests whose handlers always answer: not a shell, which takes its events from a terminal, not
-- a single pull, and not a command whose output comes as one reply of any size.
abbrev pub IsAnswering : ControlRequest → Type 0
IsAnswering (exec command args cwd timeout_secs stream_output) = stream_output ≡ true
IsAnswering (pull path) = ⊥
IsAnswering (shell command args pty term rows cols) = ⊥
IsAnswering _ = Unit

module _ {B S : Type 0} (buf : BufWriter B Bytes) (host : Host S) (processes : Processes S)
    (state : ServerState) (fuel : ℕ) (requests : Serde ControlRequest)
    (fits : RepliesFit host state) (request_id : ℕ) (world : World Bytes S) where
  pub handle_request-Outcome :
      (message : ControlRequest)
      → IsAnswering message
      → Outcome host request_id
          (handle_request buf host processes state fuel requests request_id message world)
  unfolding handle_request handle_exec_request
  handle_request-Outcome ping h = answered (respond-Answered host request_id _ world fits.pongs)
  handle_request-Outcome get_capabilities h =
      answered (respond-Answered host request_id _ world fits.own)
  handle_request-Outcome (exec command args cwd timeout_secs true) h =
      search (or_exec_failed-Outcome, fits.errors, exec-Answers)
  handle_request-Outcome (exec command args cwd timeout_secs false) h = cc h
  handle_request-Outcome (fs_stat path hash) h =
      search (or_error-Outcome, fits.errors, fs_stat-Answers)
  handle_request-Outcome (fs_list path recursive max_depth include_hidden hash) h =
      search (or_error-Outcome, fits.errors, fs_list-Answers)
  handle_request-Outcome (fs_read path encoding max_bytes) h =
      search (or_error-Outcome, fits.errors, fs_read-Answers)
  handle_request-Outcome
        (fs_write path content encoding mode create_parent atomic if_missing if_sha256) h =
      search (or_error-Outcome, fits.errors, fs_write-Answers)
  handle_request-Outcome (fs_mkdir path parents mode) h =
      search (or_error-Outcome, fits.errors, fs_mkdir-Answers)
  handle_request-Outcome (fs_rm path recursive force if_exists) h =
      search (or_error-Outcome, fits.errors, fs_rm-Answers)
  handle_request-Outcome (fs_move source destination overwrite) h =
      search (or_error-Outcome, fits.errors, fs_move-Answers)
  handle_request-Outcome (push path mode source_name) h =
      search (or_error-Outcome, fits.errors, push-Answers)
  handle_request-Outcome (pull path) h = absurd h
  handle_request-Outcome (shell command args pty term rows cols) h = absurd h
  handle_request-Outcome (push_batch destination roots entries) h =
      search (or_error-Outcome, fits.errors, push_batch-Answers)
  handle_request-Outcome (pull_batch sources) h =
      search (or_error-Outcome, fits.errors, pull_batch-Answers)

module _ {B S : Type 0} (buf : BufWriter B Bytes) (host : Host S) (processes : Processes S)
    (state : ServerState) (fuel : ℕ) (requests : Serde ControlRequest) (law : IsSerde requests)
    (fits : RepliesFit host state) where
  -- A connection over which nothing was sent yet, and on which a request frame has arrived in time,
  -- has one of two outcomes. It is answered: the handler succeeds, and what it has sent ends with a
  -- Response frame that has the id of the request. Or the handler fails with an error whose text is
  -- longer than 2 MiB, and ends with the attempt to send it. The request is any but a shell, a single
  -- pull and a command whose output is not streamed; it serializes within 16 MiB, as errors with texts
  -- of up to 2 MiB, the pong and the capabilities do, and serde reads back what it wrote.
  pub handle_connection-Outcome :
      (request_id : ℕ) (message : ControlRequest) (bytes rest : Bytes) (fs : S)
      → IsAnswering message
      → requests.to_vec message ≡ some bytes
      → request_id < 2 ^ 32
      → length bytes ≤ max_payload_len
      → Outcome host request_id (
          handle_connection buf host processes state fuel requests true (record {
            inbox = (write_json_frame requests request request_id message []).1 ++ rest;
            out = [];
            fs = fs;
          }))
  unfolding handle_connection
  handle_connection-Outcome request_id message bytes rest fs h v r n =
      let (reads, decodes) =
        decode_json-write_json_frame requests law request request_id message bytes rest v r n in
      rw (reads, decodes)
        (handle_request-Outcome buf host processes state fuel requests fits request_id
          (record { inbox = rest; out = []; fs = fs }) message h)
