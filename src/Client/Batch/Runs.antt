-- ===== src/Client/Batch/Runs.antt =====
-- A part of a concrete manifest, and a manifest of a concrete disk.
use rsdb.Base.{ℕ, ◌≡◌, refl, arith, none, some, [], ◌∷◌, ok, length, if◌then◌else◌}
use rsdb.Base.Texts.{Text, codes, text_eq}
use rsdb.Proto.Io.{memory_writer}
use rsdb.Proto.Messages.{TransferRoot, TransferEntry, file}
use rsdb.Daemon.Memory.{Memory, memory_host, empty_memory}
use rsdb.Base.{◌++◌, List}
use rsdb.Base.Texts.{Bytes}
use rsdb.Proto.Wire.{response}
use rsdb.Proto.Io.{memory_writer}
use rsdb.Paths.Components.{ends_with_slash}
use rsdb.Daemon.Host.{World}
use rsdb.Daemon.Memory.{memory_volume, memory_volume_with}
use rsdb.Daemon.Transfer.Roots.{resolve_push_destination}
use rsdb.Daemon.Transfer.Push.{handle_push}
use rsdb.Daemon.Transfer.Delivery.{frames}
use rsdb.Client.Batch.Replies.{message_wire, end_mark}
use rsdb.Client.Batch.Single.{handle_push-delivers}
use rsdb.Client.Batch.Conversation.Setting.{memory-NeverFails}
use rsdb.Client.Batch.Manifest.{
  LocalBatchManifest, filter_local_batch_manifest, select_roots, remap_entries, remap_files,
  file_total,
}
use rsdb.Client.Batch.Filtered.{
  AreRemapped, chosen_entries, filter_local_batch_manifest-AreRemapped,
}
use rsdb.Daemon.Transfer.Manifest.{build_batch_manifest_from_sources}
use rsdb.Client.Batch.Build.{build_local_batch_manifest}
use rsdb.Client.Batch.Agree.{mapped}
use rsdb.Client.Batch.Alike.{as_manifest, build_local_batch_manifest-same}
use rsdb.Client.Batch.Pulled.{value}

abbrev root_of : Text → TransferRoot
root_of name = record { source_name = name; kind = file; mode = 0o644 }

abbrev entry_of : ℕ → ℕ → TransferEntry
entry_of index size = record {
  root_index = index;
  relative_path = [];
  kind = file;
  mode = 0o644;
  size = size;
}

abbrev two_roots : LocalBatchManifest
two_roots = record {
  sources = codes "/a" ∷ codes "/b" ∷ [];
  roots = root_of (codes "a") ∷ root_of (codes "b") ∷ [];
  entries = entry_of 0 5 ∷ entry_of 1 7 ∷ [];
  files =
      record { root_index = 0; path = codes "/a"; size = 5 }
      ∷ record { root_index = 1; path = codes "/b"; size = 7 }
      ∷ [];
  total_bytes = 12;
}

abbrev second : LocalBatchManifest
second = record {
  sources = codes "/b" ∷ [];
  roots = root_of (codes "b") ∷ [];
  entries = entry_of 0 7 ∷ [];
  files = record { root_index = 0; path = codes "/b"; size = 7 } ∷ [];
  total_bytes = 7;
}

filter-two_roots : filter_local_batch_manifest two_roots (1 ∷ []) ≡ ok second
unfolding filter_local_batch_manifest select_roots remap_entries remap_files
filter-two_roots = refl

filter_local_batch_manifest-AreRemapped_example :
    (length second.roots ≡ 1)
    × (length second.sources ≡ 1)
    × AreRemapped two_roots second (chosen_entries (1 ∷ []) two_roots.entries) second.entries
    × (second.total_bytes ≡ file_total second.files)
filter_local_batch_manifest-AreRemapped_example =
    filter_local_batch_manifest-AreRemapped two_roots second (1 ∷ []) (omega arith) filter-two_roots

abbrev notes : Text
notes = codes "/notes"

abbrev one_file : Memory
one_file = record empty_memory { files = λ p. if text_eq p notes then some [] else none }

build_local_batch_manifest-same_example :
    mapped as_manifest (value (build_local_batch_manifest memory_host one_file 1 (notes ∷ [])))
    ≡ value (build_batch_manifest_from_sources memory_host one_file 1 (notes ∷ []))
build_local_batch_manifest-same_example =
    build_local_batch_manifest-same memory_host one_file 1 (notes ∷ [])

abbrev two_chunks : List Bytes
two_chunks = codes "abc" ∷ codes "de" ∷ []

abbrev pushed_to : World Bytes Memory
pushed_to = record {
  inbox = frames 1 two_chunks ++ (end_mark ++ codes "rest");
  out = [];
  fs = one_file;
}

handle_push-delivers_example :
    (world' : World Bytes Memory) × (handle_push memory_host 1 notes 0o644 none pushed_to
      ≡ (ok tt, world'))
    × (world'.inbox ≡ codes "rest")
    × (world'.out ≡ message_wire response [] ++ message_wire response [])
    × (world'.fs.files notes ≡ some (codes "abcde"))
unfolding memory_volume_with resolve_push_destination ends_with_slash
handle_push-delivers_example =
    handle_push-delivers memory_host memory_volume (memory-NeverFails memory_host.responses) notes
      0o644 none notes two_chunks [] [] (codes "rest") pushed_to refl
      ((refl, omega arith), ((refl, omega arith), tt)) refl refl (omega arith) refl (omega arith)
