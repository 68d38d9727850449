-- ===== src/Daemon/Transfer/Runs.antt =====
-- A concrete pull, and the theorem about manifests at it.
use rsdb.Base.{
  ℕ, ◌+◌, ◌<◌, ◌≡◌, refl, arith, All, if◌then◌else◌, none, some, [], ◌∷◌, ◌++◌, ok, length,
}
use rsdb.Base.{ltb, length-append}
use rsdb.Base.Texts.{Bytes, Text, codes, text_eq}
use rsdb.Proto.Messages.{file, directory, TransferEntry}
use rsdb.Proto.Messages
use rsdb.Paths.Components.{components, file_name, join}
use rsdb.Paths.Transfer.{ensure_unique_root_names, path_to_transfer_string, has_glob_pattern}
use rsdb.Daemon.Host.{Host, World}
use rsdb.Daemon.Buffer.{BufWriter, IsBufWriter}
use rsdb.Daemon.Transfer.Pull.{handle_pull}
use rsdb.Daemon.Transfer.Lost.{handle_pull_lost}
use rsdb.Daemon.Memory.{Memory, memory_host, empty_memory}
use rsdb.Daemon.Fs.Order.{sort_paths, insert_path, path_le}
use rsdb.Daemon.Fs.Entries.{file_mode}
use rsdb.Daemon.Transfer.Manifest.{BatchManifest, build_batch_manifest_from_sources}
use rsdb.Daemon.Transfer.Sums.{sum_sizes, file_sizes, sizes}
use rsdb.Daemon.Transfer.Tally.{build_batch_manifest_from_sources-IsTally}

-- A disk where `/d` is a directory of two files of three bytes.
abbrev disk : Host Memory
disk = record memory_host {
  read_dir = λ p m. ok (codes "/d/b" ∷ codes "/d/a" ∷ []);
  metadata = λ p m. ok (record {
    file_type =
        if text_eq p (codes "/d")
        then Messages.FsEntryKind.directory
        else Messages.FsEntryKind.file;
    len = 3;
    mode_bits = 0o644;
    mtime_ms = none;
  });
  symlink_metadata = λ p m. ok (record {
    file_type =
        if text_eq p (codes "/d")
        then Messages.FsEntryKind.directory
        else Messages.FsEntryKind.file;
    len = 3;
    mode_bits = 0o644;
    mtime_ms = none;
  });
}

abbrev entry_of : Text → TransferEntry
entry_of name = record { root_index = 0; relative_path = name; kind = file; mode = 0o644; size = 3 }

abbrev pulled : BatchManifest
pulled = record {
  roots = record { source_name = codes "d"; kind = directory; mode = 0o644 } ∷ [];
  entries =
      record { root_index = 0; relative_path = []; kind = directory; mode = 0o644; size = 0 }
      ∷ entry_of (codes "a")
      ∷ entry_of (codes "b")
      ∷ [];
  files = record { path = codes "/d/a"; size = 3 } ∷ record { path = codes "/d/b"; size = 3 } ∷ [];
  total_bytes = 6;
}

build_pulled : build_batch_manifest_from_sources disk empty_memory 2 (codes "/d" ∷ []) ≡ ok pulled
unfolding build_batch_manifest_from_sources has_glob_pattern file_name components join sort_paths
    insert_path path_le path_to_transfer_string file_mode ensure_unique_root_names
build_pulled = refl

build_batch_manifest_from_sources-IsTally_example :
    (6 ≡ sum_sizes pulled.files)
    × (file_sizes pulled.entries ≡ sizes pulled.files)
    × All (λ (entry : TransferEntry). entry.root_index < length pulled.roots) pulled.entries
    × (ensure_unique_root_names pulled.roots ≡ ok tt)
build_batch_manifest_from_sources-IsTally_example =
    build_batch_manifest_from_sources-IsTally disk empty_memory 2 (codes "/d" ∷ []) pulled
      build_pulled

-- A buffered writer around a byte string.
record Buffer : Type 0 where
  pub pending : Bytes
  pub sent : Bytes
  pub limit : ℕ

abbrev flushed : Buffer → Buffer
flushed b = record { pending = []; sent = b.sent ++ b.pending; limit = b.limit }

abbrev put : Bytes → Buffer → Buffer
put bytes b =
    if ltb (length bytes) b.limit
    then record b { pending = b.pending ++ bytes }
    else record b { sent = b.sent ++ bytes }

abbrev bytes_buffer : BufWriter Buffer Bytes
bytes_buffer = record {
  with_capacity = λ n sent. record { pending = []; sent = sent; limit = n };
  writer = record {
    write_all = λ bytes b.
        (ok tt, put bytes (if ltb b.limit (length b.pending + length bytes) then flushed b else b));
  };
  flush = λ b. (ok tt, flushed b);
  inner = λ b. b.sent;
}

unfoldable bytes_buffer-IsBufWriter : IsBufWriter bytes_buffer
bytes_buffer-IsBufWriter = record {
  held = λ b. length b.pending;
  capacity = λ b. b.limit;
  inner-with_capacity = λ n w. refl;
  held-with_capacity = λ n w. refl;
  capacity-with_capacity = λ n w. refl;
  keeps = λ bytes b room big. refl;
  keeps_inner = λ bytes b room big. ground arith;
  keeps_held = λ bytes b room big. ground (arith, length-append b.pending bytes);
  keeps_capacity = λ bytes b. ground arith;
}

abbrev one_file : Memory
one_file = record empty_memory { files = λ p. some (codes "hello") }

abbrev connection : World Bytes Memory
connection = record { inbox = []; out = codes "before"; fs = one_file }

handle_pull_lost_example :
    handle_pull bytes_buffer memory_host 7 (codes "/notes") connection
    ≡ (ok tt, record connection { fs = (memory_host.open_read (codes "/notes") one_file).1 })
unfolding file_mode
handle_pull_lost_example =
    handle_pull_lost bytes_buffer bytes_buffer-IsBufWriter memory_host 7 (codes "/notes")
      (record {
        file_type = Messages.FsEntryKind.file;
        len = 5;
        mode_bits = 0o644;
        mtime_ms = none;
      })
      0 (codes "hello" ∷ []) [] [] (memory_host.open_read (codes "/notes") one_file).1 connection
      refl refl refl (refl, tt) refl refl refl (omega arith)
