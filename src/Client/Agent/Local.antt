-- ===== src/Client/Agent/Local.antt =====
-- What is at a local path, as the verification of transfers sees it: collect_local_transfer_state
-- and what it calls (crates/rsdb-cli/src/main.rs).
use rsdb.Base.{
  ℕ, zero, suc, Bool, ◌&&◌, Option, none, some, List, [], ◌∷◌, ◌++◌, Result, ok, err, map_err,
  if◌then◌else◌,
}
use rsdb.Base.Exec.{Exec, pure, throw, lift, map_error, ◌>>=◌}
use rsdb.Base.Texts.{Text, Bytes, codes}
use rsdb.Proto.Wire.{IoError, default_stream_chunk_size}
use rsdb.Paths.Components.{path_eq, strip_prefix}
use rsdb.Paths.Transfer.{path_to_transfer_string}
use rsdb.Daemon.Error.{Error, bail, from_io, out_of_fuel}
use rsdb.Daemon.Host.{Host, Metadata, io_context}
use rsdb.Daemon.Fs.Entries.{is_file, is_dir, fs_entry_kind}
use rsdb.Daemon.Fs.Order.{sort_paths}
use rsdb.Daemon.Transfer.Roots.{from_path_error}
use rsdb.Client.States.{StateMap, insert_state, size_of_file}

-- The context around `StripPrefixError`, whose text is that of the standard library.
abbrev relative_or_fail : Text → Text → Option Text → Result Error Text
relative_or_fail root path none =
    err (bail (codes "path " ++ (path ++ (codes " is not under root " ++ root))))
relative_or_fail root path (some relative) =
    map_err from_path_error (path_to_transfer_string relative)

unfoldable pub relative_transfer_path : Text → Text → Result Error Text
unfolding path_eq strip_prefix path_to_transfer_string
relative_transfer_path root path =
    if path_eq root path then ok [] else relative_or_fail root path (strip_prefix path root)

-- The loop over the reads, with what was read before.
unfoldable pub read_chunks : List (Result IoError Bytes) → Bytes → Result Error Bytes
read_chunks [] before = ok before
read_chunks (err e ∷ reads) before = err (from_io e)
read_chunks (ok [] ∷ reads) before = ok before
read_chunks (ok (b ∷ chunk) ∷ reads) before = read_chunks reads (before ++ (b ∷ chunk))

module _ {S : Type 0} (host : Host S) where
  abbrev ask : {A : Type 0} → Text → (S → Result IoError A) → Exec S Error A
  ask text question s = (map_err (io_context text) (question s), s)

  unfoldable pub sha256_local_path : Text → Exec S Error Text
  unfolding read_chunks
  sha256_local_path path = do
    handle ←
        map_error (io_context (codes "failed to open " ++ (path ++ codes " for hashing")))
          (host.open_read path)
    bytes ← (λ s. (read_chunks (host.reads handle default_stream_chunk_size s) [], s))
    pure (host.sha256 bytes)

  -- `sha256` of the state of one path.
  abbrev pub hash_if_file : Bool → Text → Metadata → Exec S Error (Option Text)
  hash_if_file include_hash path metadata =
      if include_hash && is_file metadata
      then (do hash ← sha256_local_path path; pure (some hash))
      else pure none

  -- The loop over the children of a directory; `collect` handles one of them.
  unfoldable pub collect_children :
      (Text → Metadata → StateMap → Exec S Error StateMap)
      → List Text
      → StateMap
      → Exec S Error StateMap
  collect_children collect [] states = pure states
  collect_children collect (child ∷ children) states = do
    metadata ← ask (codes "failed to stat local path " ++ child) (host.symlink_metadata child)
    states' ← collect child metadata states
    collect_children collect children states'

  -- The fuel bounds how deep the directories are nested.
  unfoldable pub collect_local_transfer_state_recursive :
      ℕ → Text → Bool → Text → Metadata → StateMap → Exec S Error StateMap
  unfolding relative_transfer_path sha256_local_path collect_children fs_entry_kind
  collect_local_transfer_state_recursive zero root include_hash path metadata states =
      throw (out_of_fuel ∷ [])
  collect_local_transfer_state_recursive (suc fuel) root include_hash path metadata states = do
    relative ← lift (relative_transfer_path root path)
    hash ← hash_if_file include_hash path metadata
    let states' =
        insert_state relative
          (record {
            kind = fs_entry_kind metadata;
            size = size_of_file (fs_entry_kind metadata) metadata.len;
            sha256 = hash;
          })
          states
    if is_dir metadata
        then (do
          children ← ask (codes "failed to read local directory " ++ path) (host.read_dir path)
          collect_children (collect_local_transfer_state_recursive fuel root include_hash)
              (sort_paths children) states')
        else pure states'

  unfoldable pub collect_local_transfer_state : ℕ → Text → Bool → Exec S Error StateMap
  unfolding collect_local_transfer_state_recursive
  collect_local_transfer_state fuel root include_hash = do
    metadata ← ask (codes "failed to stat local path " ++ root) (host.symlink_metadata root)
    collect_local_transfer_state_recursive fuel root include_hash root metadata []
