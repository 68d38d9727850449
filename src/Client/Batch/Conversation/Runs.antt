-- ===== src/Client/Batch/Conversation/Runs.antt =====
-- A batch push of a directory with one file, from the client's call to the daemon's files.
use rsdb.Base.{◌≡◌, refl, arith, true, none, some, List, [], ◌∷◌, ◌++◌, ok, All}
use rsdb.Base.Texts.{Bytes, codes}
use rsdb.Proto.Wire.{request, response}
use rsdb.Proto.Io.{memory_writer}
use rsdb.Proto.Messages.{TransferRoot, directory}
use rsdb.Paths.Components.{components, join}
use rsdb.Paths.Transfer.{
  resolve_transfer_entry_path, join_transfer_relative_path, ensure_unique_root_names,
  unique_root_names,
}
use rsdb.Daemon.Host.{Host, World}
use rsdb.Daemon.Memory.{Memory, memory_host_with, memory_volume_with, empty_memory}
use rsdb.Daemon.Transfer.Roots.{resolve_batch_destination_roots}
use rsdb.Daemon.Server.{handle_connection}
use rsdb.Client.Batch.Exchange.{execute_push_manifest}
use rsdb.Client.Batch.Items.{Item}
use rsdb.Client.Batch.Kept.{HasArrived}
use rsdb.Client.Batch.Pushing.{manifest_of, push_stream}
use rsdb.Client.Batch.Replies.{message_wire}
use rsdb.Client.Batch.Conversation.{summary_of, execute_push_manifest-handle_connection}
use rsdb.Client.Batch.Conversation.Setting.{
  direct, direct-IsFlushing, no_processes, server, unshown, memory-NeverFails,
}
use rsdb.Client.Batch.Conversation.Serdes.{requests, requests-IsSerde, replies}

-- Every local file reads as `abcde`, in two chunks.
abbrev local_files : Host Memory
local_files = record (memory_host_with replies) {
  open_read = λ p m. (ok 0, m);
  reads = λ handle size m. ok (codes "abc") ∷ ok (codes "de") ∷ [];
}

abbrev music : List Item
music =
    record {
      root_index = 0;
      relative_path = [];
      mode = 0o755;
      path = codes "/data/new";
      source = none;
    }
    ∷ record {
      root_index = 0;
      relative_path = codes "song";
      mode = 0o644;
      path = codes "/data/new/song";
      source = some (codes "/music/song", codes "abc" ∷ codes "de" ∷ []);
    }
    ∷ []

abbrev music_root : List TransferRoot
music_root = record { source_name = codes "music"; kind = directory; mode = 0o755 } ∷ []

-- What the request serializes to.
abbrev asked : Bytes
asked =
    1
    ∷ 0o755
    ∷ 0
    ∷ 1
    ∷ 0o755
    ∷ 0
    ∷ 0
    ∷ 0
    ∷ 0o644
    ∷ 5
    ∷ 9
    ∷ 5
    ∷ 0
    ∷ (codes "/data/new" ++ (codes "music" ++ ([] ++ codes "song")))

execute_push_manifest-handle_connection_example :
    (local' : Memory) × (world' : World Bytes Memory) × (execute_push_manifest direct unshown
        requests local_files
        (manifest_of (codes "/music" ∷ []) music_root music)
        (codes "/data/new")
        (record {
          inbox = (message_wire response [] ++ message_wire response (2 ∷ 5 ∷ [])) ++ codes "later";
          out = [];
          fs = empty_memory;
        })
      ≡ (
        ok (summary_of music),
        record {
          inbox = codes "later";
          out = message_wire request asked ++ push_stream music;
          fs = local';
        },
      ))
    × (handle_connection direct
          (memory_host_with replies)
          no_processes
          server
          0
          requests
          true
          (record {
            inbox = (message_wire request asked ++ push_stream music) ++ codes "more";
            out = [];
            fs = empty_memory;
          })
        ≡ (ok tt, world'))
    × (world'.out ≡ message_wire response [] ++ message_wire response (2 ∷ 5 ∷ []))
    × (world'.inbox ≡ codes "more")
    × All
        (λ i.
          HasArrived
            (memory_host_with replies)
            (memory_volume_with replies)
            i.path
            i.source
            world'.fs)
        music
unfolding resolve_batch_destination_roots resolve_transfer_entry_path join_transfer_relative_path
    ensure_unique_root_names unique_root_names components join
execute_push_manifest-handle_connection_example =
    execute_push_manifest-handle_connection direct direct-IsFlushing local_files unshown direct
      (memory_host_with replies) (memory_volume_with replies) (memory-NeverFails replies)
      no_processes server 0 requests requests-IsSerde music (codes "/music" ∷ [])
      (codes "/data/new") music_root (codes "/data/new" ∷ []) asked [] (2 ∷ 5 ∷ []) (codes "later")
      (codes "more") empty_memory empty_memory
      (tt, ((((refl, omega arith), ((refl, omega arith), tt)), λ s. (0, refl, refl)), tt)) refl
      (refl, (refl, tt)) ((refl, tt), (tt, tt)) refl (omega arith)
      (record {
        ready_bytes = refl;
        ready_fits = omega arith;
        complete_bytes = refl;
        complete_fits = omega arith;
      })
      refl refl
