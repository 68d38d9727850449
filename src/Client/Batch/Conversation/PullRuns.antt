-- ===== src/Client/Batch/Conversation/PullRuns.antt =====
-- A batch pull of a directory with two files, from the client's call to its own files.
use rsdb.Base.{
  ◌≡◌, refl, arith, true, if◌then◌else◌, Option, none, some, List, [], ◌∷◌, ◌++◌, map, ok, All,
}
use rsdb.Base.Texts.{Text, Bytes, codes, text_eq}
use rsdb.Proto.Wire.{request}
use rsdb.Proto.Io.{memory_writer}
use rsdb.Proto.Frames.{Serde, IsSerde}
use rsdb.Proto.Messages.{
  ControlRequest, ControlResponse, TransferRoot, directory, ping, get_capabilities, exec, fs_stat,
  fs_list, fs_read, fs_write, fs_mkdir, fs_rm, fs_move, push, pull, push_batch, pull_batch, shell,
  pull_batch_metadata, pull_batch_complete,
}
use rsdb.Proto.Messages
use rsdb.Paths.Components.{components, file_name, join}
use rsdb.Paths.Transfer.{
  has_glob_pattern, path_to_transfer_string, resolve_transfer_entry_path,
  join_transfer_relative_path, ensure_unique_root_names, unique_root_names,
}
use rsdb.Daemon.Host.{Host, World, Metadata}
use rsdb.Daemon.Memory.{Memory, memory_host_with, memory_volume_with, empty_memory}
use rsdb.Daemon.Fs.Order.{sort_paths, insert_path, path_le}
use rsdb.Daemon.Fs.Entries.{file_mode}
use rsdb.Daemon.Transfer.Manifest.{build_batch_manifest_from_sources}
use rsdb.Daemon.Server.{handle_connection}
use rsdb.Client.Batch.Receive.{resolve_local_batch_roots}
use rsdb.Client.Batch.Exchange.{execute_pull_with_progress}
use rsdb.Client.Batch.Items.{Item, entry_of, IsReadable}
use rsdb.Client.Batch.Kept.{HasArrived}
use rsdb.Client.Batch.Alike.{as_manifest}
use rsdb.Client.Batch.Pushing.{manifest_of}
use rsdb.Client.Batch.Replies.{message_wire}
use rsdb.Client.Batch.Sent.{pull_stream}
use rsdb.Client.Batch.Conversation.{pulled_summary, execute_pull_with_progress-handle_connection}
use rsdb.Client.Batch.Conversation.Setting.{
  direct, direct-IsFlushing, no_processes, server, unshown, memory-NeverFails,
}

abbrev item_at : Text → Text → Option (Text × List Bytes) → Item
item_at relative_path path source = record {
  root_index = 0;
  relative_path = relative_path;
  mode = 0o755;
  path = path;
  source = source;
}

abbrev chunks : List Bytes
chunks = codes "ab" ∷ codes "c" ∷ []

abbrev tree : List Item
tree =
    item_at [] (codes "/new") none
    ∷ item_at (codes "a") (codes "/new/a") (some (codes "/d/a", chunks))
    ∷ item_at (codes "b") (codes "/new/b") (some (codes "/d/b", chunks))
    ∷ []

abbrev tree_root : List TransferRoot
tree_root = record { source_name = codes "d"; kind = directory; mode = 0o755 } ∷ []

-- The manifest serializes to one byte, which stands for this one.
abbrev write_reply : ControlResponse → Option Bytes
write_reply (pull_batch_metadata roots entries total_bytes) = some (0 ∷ [])
write_reply (pull_batch_complete entries_sent bytes_sent) = some (entries_sent ∷ bytes_sent ∷ [])
write_reply _ = none

abbrev read_reply : Bytes → Option ControlResponse
read_reply (entries ∷ bytes ∷ []) = some (pull_batch_complete entries bytes)
read_reply (kind ∷ []) = some (pull_batch_metadata tree_root (map entry_of tree) 6)
read_reply _ = none

abbrev replies : Serde ControlResponse
replies = record { to_vec = write_reply; from_slice = read_reply }

abbrev write_pull : ControlRequest → Option Bytes
write_pull (pull_batch (source ∷ [])) = some source
write_pull _ = none

abbrev requests : Serde ControlRequest
requests = record { to_vec = write_pull; from_slice = λ bytes. some (pull_batch (bytes ∷ [])) }

pull_reads_back :
    (message : ControlRequest) (bytes : Bytes)
    → write_pull message ≡ some bytes
    → some (pull_batch (bytes ∷ [])) ≡ some message
pull_reads_back (pull_batch []) bytes h = ground arith
pull_reads_back (pull_batch (source ∷ [])) bytes h = ground arith
pull_reads_back (pull_batch (source ∷ other ∷ sources)) bytes h = ground arith
pull_reads_back ping bytes h = ground arith
pull_reads_back get_capabilities bytes h = ground arith
pull_reads_back (exec command args cwd timeout_secs stream_output) bytes h = ground arith
pull_reads_back (fs_stat path hash) bytes h = ground arith
pull_reads_back (fs_list path recursive max_depth include_hidden hash) bytes h = ground arith
pull_reads_back (fs_read path encoding max_bytes) bytes h = ground arith
pull_reads_back (fs_write path content encoding mode create_parent atomic if_missing if_sha256)
      bytes h =
    ground arith
pull_reads_back (fs_mkdir path parents mode) bytes h = ground arith
pull_reads_back (fs_rm path recursive force if_exists) bytes h = ground arith
pull_reads_back (fs_move source destination overwrite) bytes h = ground arith
pull_reads_back (push path mode source_name) bytes h = ground arith
pull_reads_back (pull path) bytes h = ground arith
pull_reads_back (push_batch destination roots entries) bytes h = ground arith
pull_reads_back (shell command args pty term rows cols) bytes h = ground arith

pull-IsSerde : IsSerde requests
pull-IsSerde = record { reads_back = pull_reads_back }

-- The device's disk: `/d` is a directory of two files, each read as `abc` in two chunks.
abbrev disk : Host Memory
disk =
    let stat : Text → Metadata = λ p. record {
      file_type =
          if text_eq p (codes "/d")
          then Messages.FsEntryKind.directory
          else Messages.FsEntryKind.file;
      len = 3;
      mode_bits = 0o755;
      mtime_ms = none;
    } in
    record (memory_host_with replies) {
      read_dir = λ p m. ok (codes "/d/b" ∷ codes "/d/a" ∷ []);
      metadata = λ p m. ok (stat p);
      symlink_metadata = λ p m. ok (stat p);
      open_read = λ p m. (ok 0, m);
      reads = λ handle size m. map (λ c. ok c) chunks;
    }

read_abc : IsReadable disk (some (codes "/d/a", chunks))
read_abc = (((refl, omega arith), ((refl, omega arith), tt)), λ s. (0, refl, refl))

disk-tree :
    build_batch_manifest_from_sources disk empty_memory 2 (codes "/d" ∷ [])
    ≡ ok (as_manifest (manifest_of [] tree_root tree))
unfolding build_batch_manifest_from_sources has_glob_pattern file_name components join sort_paths
    insert_path path_le path_to_transfer_string file_mode ensure_unique_root_names
disk-tree = refl

execute_pull_with_progress-handle_connection_example :
    (fs' : Memory) × (local' : World Bytes Memory) × (handle_connection direct disk no_processes
        server 2 requests true
        (record {
          inbox = message_wire request (codes "/d") ++ codes "more";
          out = [];
          fs = empty_memory;
        })
      ≡ (
        ok tt,
        record { inbox = codes "more"; out = pull_stream (0 ∷ []) (3 ∷ 6 ∷ []) tree; fs = fs' },
      ))
    × (execute_pull_with_progress direct unshown requests
          (memory_host_with replies)
          (codes "/d" ∷ [])
          (codes "/new")
          (record {
            inbox = pull_stream (0 ∷ []) (3 ∷ 6 ∷ []) tree ++ codes "later";
            out = [];
            fs = empty_memory;
          })
        ≡ (ok (pulled_summary tree_root tree), local'))
    × (local'.out ≡ message_wire request (codes "/d"))
    × (local'.inbox ≡ codes "later")
    × All
        (λ i.
          HasArrived
            (memory_host_with replies)
            (memory_volume_with replies)
            i.path
            i.source
            local'.fs)
        tree
unfolding resolve_local_batch_roots resolve_transfer_entry_path join_transfer_relative_path
    ensure_unique_root_names unique_root_names components join
execute_pull_with_progress-handle_connection_example =
    execute_pull_with_progress-handle_connection direct (memory_host_with replies)
      (memory_volume_with replies) (memory-NeverFails replies) unshown direct direct-IsFlushing disk
      no_processes server 2 requests pull-IsSerde tree (codes "/d" ∷ []) (codes "/new") tree_root
      (codes "/new" ∷ []) (codes "/d") (0 ∷ []) (3 ∷ 6 ∷ []) (codes "later") (codes "more")
      empty_memory empty_memory (tt, (read_abc, (read_abc, tt))) disk-tree refl
      (refl, (refl, (refl, tt))) (refl, (refl, (refl, tt)))
      ((refl, (refl, tt)), ((refl, tt), (tt, tt))) refl (omega arith)
      (record {
        metadata_bytes = refl;
        metadata_fits = omega arith;
        complete_bytes = refl;
        complete_fits = omega arith;
      })
      refl refl
