-- ===== src/Daemon/Transfer/Manifest.antt =====
-- The manifest of a batch pull: expand_remote_sources, append_manifest_entry and
-- build_batch_manifest_from_sources (device/rsdbd/src/main.rs). They only look at the file system.
use rsdb.Base.{
  ℕ, zero, suc, ◌+◌, Bool, true, false, not, ◌&&◌, Option, none, some, List, [], ◌∷◌, ◌++◌, length,
  if◌then◌else◌,
}
use rsdb.Base.{Result, ok, err, map_err, ◌>>=◌, ◌>>◌}
use rsdb.Base.Texts.{Text, codes, is_empty}
use rsdb.Proto.Wire.{not_found}
use rsdb.Proto.Messages.{TransferEntryKind, file, directory, TransferRoot, TransferEntry}
use rsdb.Paths.Components.{join, file_name}
use rsdb.Paths.Transfer.{ensure_unique_root_names, path_to_transfer_string, has_glob_pattern}
use rsdb.Daemon.Error.{Error, bail, with_context, from_io, out_of_fuel}
use rsdb.Daemon.Host.{Host, Metadata, MatchOptions, io_context}
use rsdb.Daemon.Fs.Entries.{is_file, is_dir, is_symlink, file_mode}
use rsdb.Daemon.Fs.Order.{sort_paths}
use rsdb.Daemon.Transfer.Roots.{from_path_error}

abbrev pub glob_match_options : MatchOptions
glob_match_options = record {
  case_sensitive = true;
  require_literal_separator = false;
  require_literal_leading_dot = false;
}

pub record BatchFileSource : Type 0 where
  pub path : Text
  pub size : ℕ

pub record BatchManifest : Type 0 where
  pub roots : List TransferRoot
  pub entries : List TransferEntry
  pub files : List BatchFileSource
  pub total_bytes : ℕ

-- What the walk has collected: the three vectors that `append_manifest_entry` appends to.
pub record Collected : Type 0 where
  pub entries : List TransferEntry
  pub files : List BatchFileSource
  pub total_bytes : ℕ

abbrev unsupported_link : Text → Error
unsupported_link path = bail (codes "symbolic links are not supported in batch pull: " ++ path)

abbrev unsupported_type : Text → Error
unsupported_type path = bail (codes "unsupported remote path type: " ++ path)

-- A name that is not empty, or the error.
abbrev usable : Error → Option Text → Result Error Text
usable error none = err error
usable error (some []) = err error
usable error (some (c ∷ name)) = ok (c ∷ name)

abbrev push_entry : Collected → TransferEntry → Collected
push_entry acc entry = record acc { entries = acc.entries ++ (entry ∷ []) }

abbrev pub name_or_fail : Text → Option Text → Result Error Text
name_or_fail path none = err (bail (codes "path has no file name: " ++ path))
name_or_fail path (some name) = ok name

abbrev pub child_path : Text → Text → Text
child_path relative_path name = if is_empty relative_path then name else join relative_path name

-- The matches of a pattern, up to the first that cannot be resolved.
unfoldable pub resolve_matches : Text → List (Result Text Text) → Result Error (List Text)
resolve_matches spec [] = ok []
resolve_matches spec (err text ∷ rest) =
    err (with_context (codes "failed to resolve remote match for " ++ spec) (bail text))
resolve_matches spec (ok path ∷ rest) = do paths ← resolve_matches spec rest; ok (path ∷ paths)

abbrev pub require_matches : Text → List Text → Result Error (List Text)
require_matches spec [] = err (from_io (record { kind = not_found; raw_os_error = none }))
require_matches spec (path ∷ paths) = ok (path ∷ paths)

module _ {S : Type 0} (host : Host S) (s : S) where
  -- `Path::exists`
  abbrev pub exists : Text → Bool
  exists path = elim (host.metadata path s) [ ok metadata ↦ true | err e ↦ false ]

  abbrev stat_remote : Text → Result Error Metadata
  stat_remote path =
      map_err (io_context (codes "failed to stat remote path " ++ path))
        (host.symlink_metadata path s)

  -- The paths of one specification.
  unfoldable pub expand_source : Text → Result Error (List Text)
  unfolding resolve_matches
  expand_source spec =
      if has_glob_pattern spec && not (exists spec)
      then (do
        found ←
            map_err
              (λ text. with_context (codes "invalid remote glob pattern: " ++ spec) (bail text))
              (host.glob glob_match_options spec s)
        matches ← resolve_matches spec found
        require_matches spec (sort_paths matches))
      else (do
        metadata ←
            map_err (io_context (codes "failed to stat remote path " ++ spec))
              (host.metadata spec s)
        ok (spec ∷ []))

  unfoldable pub expand_remote_sources : List Text → Result Error (List Text)
  unfolding expand_source
  expand_remote_sources [] = ok []
  expand_remote_sources (spec ∷ specs) = do
    found ← expand_source spec
    rest ← expand_remote_sources specs
    ok (found ++ rest)

  unfoldable pub transfer_source_name : Text → Result Error Text
  transfer_source_name path = elim (file_name path) [
    | some (c ∷ name) ↦ ok (c ∷ name)
    | _ ↦ (do
      canonical ←
          map_err (io_context (codes "failed to canonicalize " ++ path)) (host.canonicalize path s)
      usable (bail (codes "path has no usable file name: " ++ path)) (file_name canonical))
  ]

  -- The loop over the children of a directory; `append` handles one of them.
  unfoldable pub append_children :
      (Text → Text → Metadata → Collected → Result Error Collected)
      → Text
      → List Text
      → Collected
      → Result Error Collected
  append_children append relative_path [] acc = ok acc
  append_children append relative_path (child ∷ children) acc = do
    child_name ← name_or_fail child (file_name child)
    metadata ← stat_remote child
    acc' ← append child (child_path relative_path child_name) metadata acc
    append_children append relative_path children acc'

  -- The fuel bounds how deep the directories are nested.
  unfoldable pub append_manifest_entry :
      ℕ → ℕ → Text → Text → Metadata → Collected → Result Error Collected
  unfolding append_children
  append_manifest_entry zero root_index path relative_path metadata acc = err (out_of_fuel ∷ [])
  append_manifest_entry (suc fuel) root_index path relative_path metadata acc =
      if is_symlink metadata
      then err (unsupported_link path)
      else if is_dir metadata
      then (do
        relative ← map_err from_path_error (path_to_transfer_string relative_path)
        children ←
            map_err (io_context (codes "failed to read remote directory " ++ path))
              (host.read_dir path s)
        append_children (append_manifest_entry fuel root_index) relative_path (sort_paths children)
            (push_entry acc (record {
              root_index = root_index;
              relative_path = relative;
              kind = directory;
              mode = file_mode metadata;
              size = 0;
            })))
      else if not (is_file metadata)
      then err (unsupported_type path)
      else (do
        relative ← map_err from_path_error (path_to_transfer_string relative_path)
        ok (record {
          entries =
              acc.entries
              ++ (record {
                root_index = root_index;
                relative_path = relative;
                kind = file;
                mode = file_mode metadata;
                size = metadata.len;
              }
                  ∷ []);
          files = acc.files ++ (record { path = path; size = metadata.len } ∷ []);
          total_bytes = acc.total_bytes + metadata.len;
        }))

  abbrev pub root_kind : Text → Metadata → Result Error TransferEntryKind
  root_kind source metadata =
      if is_symlink metadata
      then err (unsupported_link source)
      else if is_dir metadata
      then ok directory
      else if is_file metadata
      then ok file
      else err (unsupported_type source)

  -- The loop over the sources.
  unfoldable pub append_sources :
      ℕ → List Text → List TransferRoot → Collected → Result Error (List TransferRoot × Collected)
  unfolding append_manifest_entry transfer_source_name
  append_sources fuel [] roots acc = ok (roots, acc)
  append_sources fuel (source ∷ sources) roots acc = do
    metadata ← stat_remote source
    kind ← root_kind source metadata
    name ← transfer_source_name source
    acc' ← append_manifest_entry fuel (length roots) source [] metadata acc
    append_sources fuel sources
        (roots ++ (record { source_name = name; kind = kind; mode = file_mode metadata } ∷ [])) acc'

  unfoldable pub build_batch_manifest_from_sources : ℕ → List Text → Result Error BatchManifest
  unfolding expand_remote_sources append_sources
  build_batch_manifest_from_sources fuel source_specs = do
    sources ← expand_remote_sources source_specs
    (roots, all) ←
        append_sources fuel sources [] (record { entries = []; files = []; total_bytes = 0 })
    map_err from_path_error (ensure_unique_root_names roots)
        >> ok (record {
          roots = roots;
          entries = all.entries;
          files = all.files;
          total_bytes = all.total_bytes;
        })
