-- ===== src/Client/Batch/Build.antt =====
-- Building the manifest of a batch push: expand_local_sources, append_local_manifest_entry and
-- build_local_batch_manifest (crates/rsdb-cli/src/main.rs). The functions on names and paths that
-- they call are the daemon's again. They only look at the file system.
use rsdb.Base.{ℕ, zero, suc, ◌+◌, not, ◌&&◌, List, [], ◌∷◌, ◌++◌, length, if◌then◌else◌}
use rsdb.Base.{Result, ok, err, map_err, ◌>>=◌, ◌>>◌}
use rsdb.Base.Texts.{Text, codes}
use rsdb.Proto.Messages.{TransferEntryKind, file, directory, TransferRoot, TransferEntry}
use rsdb.Paths.Components.{file_name}
use rsdb.Paths.Transfer.{ensure_unique_root_names, path_to_transfer_string, has_glob_pattern}
use rsdb.Daemon.Error.{Error, bail, with_context, out_of_fuel}
use rsdb.Daemon.Host.{Host, Metadata, io_context}
use rsdb.Daemon.Fs.Entries.{is_file, is_dir, is_symlink, file_mode}
use rsdb.Daemon.Fs.Order.{sort_paths}
use rsdb.Daemon.Transfer.Roots.{from_path_error}
use rsdb.Daemon.Transfer.Manifest.{
  glob_match_options, exists, transfer_source_name, child_path, name_or_fail,
}
use rsdb.Client.Batch.Manifest.{LocalBatchFile, LocalBatchManifest}

-- What the walk has collected.
pub record LocalCollected : Type 0 where
  pub entries : List TransferEntry
  pub files : List LocalBatchFile
  pub total_bytes : ℕ

abbrev local_link : Text → Error
local_link path = bail (codes "symbolic links are not supported in batch push: " ++ path)

abbrev local_type : Text → Error
local_type path = bail (codes "unsupported local path type: " ++ path)

-- The matches of a pattern, up to the first that cannot be resolved.
unfoldable pub resolve_local_matches : Text → List (Result Text Text) → Result Error (List Text)
resolve_local_matches spec [] = ok []
resolve_local_matches spec (err text ∷ rest) =
    err (with_context (codes "failed to resolve local match for " ++ spec) (bail text))
resolve_local_matches spec (ok path ∷ rest) = do
  paths ← resolve_local_matches spec rest
  ok (path ∷ paths)

abbrev pub require_local_matches : Text → List Text → Result Error (List Text)
require_local_matches spec [] = err (bail (codes "local pattern matched no paths: " ++ spec))
require_local_matches spec (path ∷ paths) = ok (path ∷ paths)

module _ {S : Type 0} (host : Host S) (s : S) where
  -- The paths of one specification.
  unfoldable pub expand_local_source : Text → Result Error (List Text)
  unfolding resolve_local_matches
  expand_local_source spec =
      if has_glob_pattern spec && not (exists host s spec)
      then (do
        found ←
            map_err
              (λ text. with_context (codes "invalid local glob pattern: " ++ spec) (bail text))
              (host.glob glob_match_options spec s)
        matches ← resolve_local_matches spec found
        require_local_matches spec (sort_paths matches))
      else if not (exists host s spec)
      then err (bail (codes "local path does not exist: " ++ spec))
      else ok (spec ∷ [])

  unfoldable pub expand_local_sources : List Text → Result Error (List Text)
  unfolding expand_local_source
  expand_local_sources [] = ok []
  expand_local_sources (spec ∷ specs) = do
    found ← expand_local_source spec
    rest ← expand_local_sources specs
    ok (found ++ rest)

  abbrev pub stat_local : Text → Result Error Metadata
  stat_local path =
      map_err (io_context (codes "failed to stat local path " ++ path))
        (host.symlink_metadata path s)

  -- The loop over the children of a directory; `append` handles one of them.
  unfoldable pub append_local_children :
      (Text → Text → Metadata → LocalCollected → Result Error LocalCollected)
      → Text
      → List Text
      → LocalCollected
      → Result Error LocalCollected
  append_local_children append relative_path [] acc = ok acc
  append_local_children append relative_path (child ∷ children) acc = do
    child_name ← name_or_fail child (file_name child)
    metadata ← stat_local child
    acc' ← append child (child_path relative_path child_name) metadata acc
    append_local_children append relative_path children acc'

  -- The fuel bounds how deep the directories are nested.
  unfoldable pub append_local_manifest_entry :
      ℕ → ℕ → Text → Text → Metadata → LocalCollected → Result Error LocalCollected
  unfolding append_local_children
  append_local_manifest_entry zero root_index path relative_path metadata acc =
      err (out_of_fuel ∷ [])
  append_local_manifest_entry (suc fuel) root_index path relative_path metadata acc =
      if is_symlink metadata
      then err (local_link path)
      else if is_dir metadata
      then (do
        relative ← map_err from_path_error (path_to_transfer_string relative_path)
        children ←
            map_err (io_context (codes "failed to read local directory " ++ path))
              (host.read_dir path s)
        append_local_children (append_local_manifest_entry fuel root_index) relative_path
            (sort_paths children)
            (record acc {
              entries =
                  acc.entries
                  ++ (record {
                    root_index = root_index;
                    relative_path = relative;
                    kind = directory;
                    mode = file_mode metadata;
                    size = 0;
                  }
                      ∷ []);
            }))
      else if not (is_file metadata)
      then err (local_type path)
      else (do
        relative ← map_err from_path_error (path_to_transfer_string relative_path)
        ok (record {
          entries =
              acc.entries
              ++ (record {
                root_index = root_index;
                relative_path = relative;
                kind = file;
                mode = file_mode metadata;
                size = metadata.len;
              }
                  ∷ []);
          files =
              acc.files
              ++ (record { root_index = root_index; path = path; size = metadata.len } ∷ []);
          total_bytes = acc.total_bytes + metadata.len;
        }))

  abbrev pub local_root_kind : Text → Metadata → Result Error TransferEntryKind
  local_root_kind source metadata =
      if is_symlink metadata
      then err (local_link source)
      else if is_dir metadata
      then ok directory
      else if is_file metadata
      then ok file
      else err (local_type source)

  -- The loop over the sources.
  unfoldable pub append_local_sources :
      ℕ
      → List Text
      → List TransferRoot
      → LocalCollected
      → Result Error (List TransferRoot × LocalCollected)
  unfolding append_local_manifest_entry transfer_source_name
  append_local_sources fuel [] roots acc = ok (roots, acc)
  append_local_sources fuel (source ∷ sources) roots acc = do
    metadata ← stat_local source
    kind ← local_root_kind source metadata
    name ← transfer_source_name host s source
    acc' ← append_local_manifest_entry fuel (length roots) source [] metadata acc
    append_local_sources fuel sources
        (roots ++ (record { source_name = name; kind = kind; mode = file_mode metadata } ∷ [])) acc'

  unfoldable pub build_local_batch_manifest : ℕ → List Text → Result Error LocalBatchManifest
  unfolding expand_local_sources append_local_sources
  build_local_batch_manifest fuel source_specs = do
    sources ← expand_local_sources source_specs
    (roots, all) ←
        append_local_sources fuel sources [] (record { entries = []; files = []; total_bytes = 0 })
    map_err from_path_error (ensure_unique_root_names roots)
        >> ok (record {
          sources = sources;
          roots = roots;
          entries = all.entries;
          files = all.files;
          total_bytes = all.total_bytes;
        })
