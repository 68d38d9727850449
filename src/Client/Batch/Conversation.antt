-- ===== src/Client/Batch/Conversation.antt =====
-- A batch push and a batch pull as conversations: execute_push_manifest or execute_pull_with_progress
-- (crates/rsdb-cli/src/main.rs) on one end of a connection and handle_connection
-- (device/rsdbd/src/main.rs) on the other.
pub mod Setting
pub mod Serdes
mod Runs
mod PullRuns
use mathlib.Core.List.{append_assoc}
use rsdb.Base.{◌∙◌, ℕ, ◌≤◌, ◌≡◌, true, false, none, some, List, [], ◌++◌, map, ok, length, All, ap}
use rsdb.Base.Texts.{Text, Bytes}
use rsdb.Proto.Io.{memory_writer}
use rsdb.Proto.Wire.{request, response, max_payload_len}
use rsdb.Proto.Frames.{Serde, IsSerde}
use rsdb.Proto.Messages.{
  ControlRequest, ControlResponse, TransferRoot, pull_batch, pull_batch_metadata,
  pull_batch_complete, push_batch, push_batch_ready, push_batch_complete,
}
use rsdb.Paths.Transfer.{resolve_transfer_entry_path}
use rsdb.Daemon.Buffer.{BufWriter, IsFlushing}
use rsdb.Daemon.Host.{Host, World}
use rsdb.Daemon.Fs.Volume.{IsVolume}
use rsdb.Daemon.Transfer.Roots.{resolve_batch_destination_roots}
use rsdb.Daemon.Session.Process.{ServerState, Processes}
use rsdb.Daemon.Server.{handle_connection}
use rsdb.Client.Batch.Alike.{as_manifest}
use rsdb.Client.Batch.Mirrored.{HasPlainMode}
use rsdb.Client.Batch.Receive.{resolve_local_batch_roots}
use rsdb.Daemon.Transfer.Manifest.{build_batch_manifest_from_sources}
use rsdb.Client.Batch.Sent.{PullBytes, pull_stream, handle_connection-pulled}
use rsdb.Client.Batch.Pulling.{execute_pull_with_progress-completes}
use rsdb.Client.Batch.Exchange.{
  PullSummary, execute_pull_with_progress, PushSummary, execute_push_manifest,
}
use rsdb.Client.Batch.Items.{Item, entry_of, total_of, AreApart, IsReadable, All-IsReadable-chunks}
use rsdb.Client.Batch.Kept.{NeverFails, HasArrived}
use rsdb.Client.Batch.Pushing.{manifest_of, push_stream, execute_push_manifest-completes}
use rsdb.Client.Batch.Pushed.{ReplyBytes, handle_connection-items}
use rsdb.Client.Batch.Replies.{message_wire}

-- What the client reports of a push of these entries.
abbrev pub summary_of : List Item → PushSummary
summary_of items = record {
  entries_written = length items;
  bytes_written = total_of items;
  skipped = false;
  verification = none;
  verified = false;
}

module _ {B C T S : Type 0} (buf : BufWriter B Bytes) (flushing : IsFlushing buf) (sender : Host T)
    (show : ControlResponse → Text) (daemon_buf : BufWriter C Bytes) (host : Host S)
    (volume : IsVolume host) (never : NeverFails host volume) (processes : Processes S)
    (state : ServerState) (fuel : ℕ) (requests : Serde ControlRequest)
    (law : IsSerde requests) where
  -- A batch of files and directories, none at the path of an earlier one, where the client can read
  -- each file whenever it comes to it, in chunks that are not empty and fit in frames; where the daemon
  -- finds the places of the roots and of the entries, on a file system with the laws of `IsVolume` on
  -- which nothing fails; and where the request and the two replies serialize within 16 MiB and are
  -- read back by the other side. With the daemon's two replies to come, execute_push_manifest sends
  -- the request, the files and the end mark, and succeeds with the number of entries and of bytes; with
  -- exactly what the client sent to come, handle_connection succeeds, has sent exactly those two
  -- replies, and each file is at its path with exactly the bytes that were read. Both leave what
  -- follows unread. The client's buffered writer passes on what it took when it is flushed.
  pub execute_push_manifest-handle_connection :
      (items : List Item) (sources : List Text) (destination : Text) (roots : List TransferRoot)
      (root_paths : List Text) (asked ready complete later more : Bytes) (local : T) (fs : S)
      → All (λ i. IsReadable sender i.source) items
      → (resolve_batch_destination_roots host destination roots fs).0 ≡ ok root_paths
      → All (λ i. resolve_transfer_entry_path root_paths (entry_of i) ≡ ok i.path) items
      → AreApart items
      → requests.to_vec (push_batch destination roots (map entry_of items)) ≡ some asked
      → length asked ≤ max_payload_len
      → ReplyBytes host items ready complete
      → sender.responses.from_slice ready ≡ some push_batch_ready
      → sender.responses.from_slice complete
        ≡ some (push_batch_complete (length items) (total_of items))
      → let to_device = message_wire request asked ++ push_stream items in
        let to_client = message_wire response ready ++ message_wire response complete in
        (local' : T) × (world' : World Bytes S) × (execute_push_manifest buf show requests sender
            (manifest_of sources roots items)
            destination
            (record { inbox = to_client ++ later; out = []; fs = local })
          ≡ (ok (summary_of items), record { inbox = later; out = to_device; fs = local' }))
        × (handle_connection daemon_buf host processes state fuel requests true
              (record { inbox = to_device ++ more; out = []; fs = fs })
            ≡ (ok tt, world'))
        × (world'.out ≡ to_client)
        × (world'.inbox ≡ more)
        × All (λ i. HasArrived host volume i.path i.source world'.fs) items
  execute_push_manifest-handle_connection items sources destination roots root_paths asked ready
        complete later more local fs readable placed resolved apart v n bytes reads_ready
        reads_complete =
      let to_client = message_wire response ready ++ message_wire response complete in
      let (local', client) =
        execute_push_manifest-completes buf flushing sender show requests sources roots items
          destination asked ready complete later
          (record { inbox = to_client ++ later; out = []; fs = local }) readable v n
          bytes.ready_fits bytes.complete_fits reads_ready reads_complete
          (append_assoc (message_wire response ready) (message_wire response complete) later) in
      let (world', run, pushed) =
        handle_connection-items host volume never items destination roots root_paths ready complete
          more bytes (All-IsReadable-chunks sender items readable) resolved apart daemon_buf
          processes state fuel requests law asked fs placed v n in
      (
        local',
        world',
        client,
        rw (append_assoc (message_wire request asked) (push_stream items) more) run,
        pushed.replied,
        pushed.left,
        pushed.arrived,
      )

-- What the client reports of a pull of these entries.
abbrev pub pulled_summary : List TransferRoot → List Item → PullSummary
pulled_summary roots items = record {
  entries_received = length items;
  bytes_received = total_of items;
  total_bytes = total_of items;
  verification = none;
  verified = false;
  roots = roots;
  entries = map entry_of items;
}

module _ {B C T S : Type 0} (buf : BufWriter B Bytes) (host : Host T) (volume : IsVolume host)
    (never : NeverFails host volume) (show : ControlResponse → Text)
    (daemon_buf : BufWriter C Bytes) (flushing : IsFlushing daemon_buf) (sender : Host S)
    (processes : Processes S) (state : ServerState) (fuel : ℕ) (requests : Serde ControlRequest)
    (law : IsSerde requests) where
  -- A pull of files and directories, none to the path of an earlier one, of which the daemon builds
  -- the manifest of these items, with modes of permission bits only; where the daemon can read each
  -- file whenever it comes to it, in chunks that are not empty and fit in frames; where the client
  -- finds the places of the roots and of the entries, on a file system with the laws of `IsVolume` on
  -- which nothing fails; and where the request and the two replies serialize within 16 MiB and are
  -- read back by the other side. With the request to come, handle_connection succeeds and sends the
  -- manifest, the files, the end mark and the completion; with exactly that to come,
  -- execute_pull_with_progress has sent exactly the request and succeeds with the daemon's roots and
  -- entries and the number of entries and bytes, and each file is at its path with exactly the bytes
  -- that the daemon read. Both leave what follows unread. The daemon's buffered writer passes on what
  -- it took when it is flushed.
  pub execute_pull_with_progress-handle_connection :
      (items : List Item) (sources : List Text) (destination : Text) (roots : List TransferRoot)
      (root_paths : List Text) (asked metadata complete later more : Bytes) (local : T) (fs : S)
      → All (λ i. IsReadable sender i.source) items
      → build_batch_manifest_from_sources sender fs fuel sources
        ≡ ok (as_manifest (manifest_of [] roots items))
      → (resolve_local_batch_roots host destination destination roots local).0 ≡ ok root_paths
      → All (λ i. resolve_transfer_entry_path root_paths (entry_of i) ≡ ok i.path) items
      → All (λ e. HasPlainMode e.mode) (map entry_of items)
      → AreApart items
      → requests.to_vec (pull_batch sources) ≡ some asked
      → length asked ≤ max_payload_len
      → PullBytes sender roots items metadata complete
      → host.responses.from_slice metadata
        ≡ some (pull_batch_metadata roots (map entry_of items) (total_of items))
      → host.responses.from_slice complete
        ≡ some (pull_batch_complete (length items) (total_of items))
      → let to_device = message_wire request asked in
        let to_client = pull_stream metadata complete items in
        (fs' : S) × (local' : World Bytes T) × (handle_connection daemon_buf sender processes state
            fuel requests true
            (record { inbox = to_device ++ more; out = []; fs = fs })
          ≡ (ok tt, record { inbox = more; out = to_client; fs = fs' }))
        × (execute_pull_with_progress buf show requests host sources destination
              (record { inbox = to_client ++ later; out = []; fs = local })
            ≡ (ok (pulled_summary roots items), local'))
        × (local'.out ≡ to_device)
        × (local'.inbox ≡ later)
        × All (λ i. HasArrived host volume i.path i.source local'.fs) items
  execute_pull_with_progress-handle_connection items sources destination roots root_paths asked
        metadata complete later more local fs readable built placed resolved plain apart v n bytes
        reads_metadata reads_complete =
      let (fs', daemon) =
        handle_connection-pulled daemon_buf flushing sender fuel sources roots items metadata
          complete bytes readable processes state requests law asked more fs built v n in
      let meta = message_wire response metadata in
      let done = message_wire response complete in
      let (local', client, left, sent, arrived) =
        execute_pull_with_progress-completes host volume never items destination roots root_paths
          (All-IsReadable-chunks sender items readable) resolved plain apart buf show requests
          sources asked metadata complete later
          (record { inbox = (meta ++ (push_stream items ++ done)) ++ later; out = []; fs = local })
          placed v n bytes.metadata_fits bytes.complete_fits reads_metadata reads_complete
          (append_assoc meta (push_stream items ++ done) later
            ∙ ap (λ t. meta ++ t) (append_assoc (push_stream items) done later)) in
      (fs', local', daemon, client, sent, left, arrived)
