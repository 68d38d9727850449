-- ===== src/Client/Batch/Alike.antt =====
-- The client's manifest of a file system is the daemon's of the same one (crates/rsdb-cli/src/main.rs,
-- device/rsdbd/src/main.rs).
use mathlib.Core.List.{map-append}
use rsdb.Base.{
  ℕ, zero, suc, ◌+◌, ◌≡◌, arith, not, ◌&&◌, List, [], ◌∷◌, ◌++◌, map, length, if◌then◌else◌, Result,
  ok, err, map_err, ◌>>=◌, Result-cases, inl, inr,
}
use rsdb.Base.Texts.{Text, codes}
use rsdb.Proto.Messages.{TransferRoot, TransferEntry, file, directory}
use rsdb.Daemon.Error.{Error, bail}
use rsdb.Daemon.Host.{Host, Metadata, io_context}
use rsdb.Daemon.Fs.Entries.{is_dir, is_file, is_symlink, file_mode}
use rsdb.Daemon.Fs.Order.{sort_paths}
use rsdb.Paths.Components.{file_name}
use rsdb.Paths.Transfer.{has_glob_pattern, path_to_transfer_string, ensure_unique_root_names}
use rsdb.Daemon.Transfer.Manifest.{
  glob_match_options, BatchFileSource, BatchManifest, Collected, exists, resolve_matches,
  require_matches, expand_source, expand_remote_sources, transfer_source_name, append_children,
  child_path, name_or_fail, append_manifest_entry, root_kind, append_sources,
  build_batch_manifest_from_sources,
}
use rsdb.Client.Batch.Manifest.{LocalBatchFile, LocalBatchManifest}
use rsdb.Client.Batch.Build.{
  LocalCollected, resolve_local_matches, require_local_matches, expand_local_source,
  expand_local_sources, append_local_children, append_local_manifest_entry, local_root_kind,
  append_local_sources, build_local_batch_manifest,
}
use rsdb.Client.Batch.Pulled.{value}
use rsdb.Client.Batch.Agree.{
  mapped, IsAlike, ok-IsAlike, err-IsAlike, bind-IsAlike, if-IsAlike, map_err-IsAlike, same-IsAlike,
}

-- The same without the index of the root.
abbrev pub as_source : LocalBatchFile → BatchFileSource
as_source item = record { path = item.path; size = item.size }

abbrev as_collected : LocalCollected → Collected
as_collected all = record {
  entries = all.entries;
  files = map as_source all.files;
  total_bytes = all.total_bytes;
}

-- The client's manifest without its sources.
abbrev pub as_manifest : LocalBatchManifest → BatchManifest
as_manifest m = record {
  roots = m.roots;
  entries = m.entries;
  files = map as_source m.files;
  total_bytes = m.total_bytes;
}

resolve_matches-IsAlike :
    (spec : Text) (found : List (Result Text Text))
    → IsAlike (λ paths. paths) (resolve_local_matches spec found) (resolve_matches spec found)
unfolding resolve_local_matches resolve_matches
resolve_matches-IsAlike spec [] = ok-IsAlike _ []
resolve_matches-IsAlike spec (err text ∷ rest) = err-IsAlike _ _ _
resolve_matches-IsAlike spec (ok path ∷ rest) =
    bind-IsAlike _ _ _ _ _ _ (resolve_matches-IsAlike spec rest)
      λ paths. ok-IsAlike _ (path ∷ paths)

require_matches-IsAlike :
    (spec : Text) (paths : List Text)
    → IsAlike
        (λ (all : List Text). all)
        (require_local_matches spec paths)
        (require_matches spec paths)
require_matches-IsAlike spec [] = err-IsAlike _ _ _
require_matches-IsAlike spec (path ∷ paths) = ok-IsAlike _ (path ∷ paths)

module _ {S : Type 0} (host : Host S) (s : S) where
  literal-IsAlike :
      (spec : Text)
      → IsAlike
          (λ (paths : List Text). paths)
          (if not (exists host s spec)
            then err (bail (codes "local path does not exist: " ++ spec))
            else ok (spec ∷ []))
          (map_err (io_context (codes "failed to stat remote path " ++ spec)) (host.metadata spec s)
            >>= λ metadata. ok (spec ∷ []))
  literal-IsAlike spec = elim (Result-cases (host.metadata spec s)) [
    | inl (metadata, e) ↦ record { same = ground (arith, e) }
    | inr (x, e) ↦ record { same = ground (arith, e) }
  ]

  expand_source-IsAlike :
      (spec : Text)
      → IsAlike (λ paths. paths) (expand_local_source host s spec) (expand_source host s spec)
  unfolding expand_local_source expand_source
  expand_source-IsAlike spec =
      if-IsAlike (λ paths. paths) (has_glob_pattern spec && not (exists host s spec)) _ _ _ _
        (bind-IsAlike _ _ _ _ _ _ (map_err-IsAlike _ _ (host.glob glob_match_options spec s))
          λ found.
            bind-IsAlike _ _ _ _ _ _ (resolve_matches-IsAlike spec found)
              λ matches. require_matches-IsAlike spec (sort_paths matches))
        (literal-IsAlike spec)

  expand_sources-IsAlike :
      (specs : List Text)
      → IsAlike
          (λ paths. paths)
          (expand_local_sources host s specs)
          (expand_remote_sources host s specs)
  unfolding expand_local_sources expand_remote_sources
  expand_sources-IsAlike [] = ok-IsAlike _ []
  expand_sources-IsAlike (spec ∷ specs) =
      bind-IsAlike _ _ _ _ _ _ (expand_source-IsAlike spec) λ found.
        bind-IsAlike _ _ _ _ _ _ (expand_sources-IsAlike specs) λ rest. ok-IsAlike _ (found ++ rest)

  children-IsAlike :
      (append : Text → Text → Metadata → LocalCollected → Result Error LocalCollected)
      (other : Text → Text → Metadata → Collected → Result Error Collected)
      → ((path relative_path : Text) (metadata : Metadata) (acc : LocalCollected)
          → IsAlike as_collected
              (append path relative_path metadata acc)
              (other path relative_path metadata (as_collected acc)))
      → (relative_path : Text) (children : List Text) (acc : LocalCollected)
      → IsAlike as_collected
          (append_local_children host s append relative_path children acc)
          (append_children host s other relative_path children (as_collected acc))
  unfolding append_local_children append_children
  children-IsAlike append other h relative_path [] acc = ok-IsAlike _ acc
  children-IsAlike append other h relative_path (child ∷ children) acc =
      bind-IsAlike _ _ _ _ _ _ (same-IsAlike (name_or_fail child (file_name child))) λ child_name.
        bind-IsAlike _ _ _ _ _ _ (map_err-IsAlike _ _ (host.symlink_metadata child s)) λ metadata.
          bind-IsAlike _ _ _ _ _ (append_children host s other relative_path children)
            (h child (child_path relative_path child_name) metadata acc)
            λ next. children-IsAlike append other h relative_path children next

  abbrev file_entry : ℕ → Text → Metadata → TransferEntry
  file_entry root_index relative metadata = record {
    root_index = root_index;
    relative_path = relative;
    kind = file;
    mode = file_mode metadata;
    size = metadata.len;
  }

  file-IsAlike :
      (root_index : ℕ) (path relative : Text) (metadata : Metadata) (acc : LocalCollected)
      → IsAlike as_collected
          (ok (record {
            entries = acc.entries ++ (file_entry root_index relative metadata ∷ []);
            files =
                acc.files
                ++ (record { root_index = root_index; path = path; size = metadata.len } ∷ []);
            total_bytes = acc.total_bytes + metadata.len;
          }))
          (ok (record {
            entries = acc.entries ++ (file_entry root_index relative metadata ∷ []);
            files = map as_source acc.files ++ (record { path = path; size = metadata.len } ∷ []);
            total_bytes = acc.total_bytes + metadata.len;
          }))
  file-IsAlike root_index path relative metadata acc = record {
    same = ground (
      arith,
      map-append as_source acc.files
          (record { root_index = root_index; path = path; size = metadata.len } ∷ []),
    );
  }

  entry-IsAlike :
      (fuel root_index : ℕ) (path relative_path : Text) (metadata : Metadata) (acc : LocalCollected)
      → IsAlike as_collected
          (append_local_manifest_entry host s fuel root_index path relative_path metadata acc)
          (append_manifest_entry host s fuel root_index path relative_path metadata
            (as_collected acc))
  unfolding append_local_manifest_entry append_manifest_entry
  entry-IsAlike zero root_index path relative_path metadata acc = err-IsAlike _ _ _
  entry-IsAlike (suc fuel) root_index path relative_path metadata acc =
      if-IsAlike as_collected (is_symlink metadata) _ _ _ _ (err-IsAlike _ _ _) (
        if-IsAlike as_collected (is_dir metadata) _ _ _ _
          (bind-IsAlike _ _ _ _ _ _ (map_err-IsAlike _ _ (path_to_transfer_string relative_path))
            λ relative.
              bind-IsAlike _ _ _ _ _ _ (map_err-IsAlike _ _ (host.read_dir path s)) λ children.
                children-IsAlike _ (append_manifest_entry host s fuel root_index)
                  (entry-IsAlike fuel root_index) relative_path (sort_paths children) _)
          (if-IsAlike as_collected (not (is_file metadata)) _ _ _ _ (err-IsAlike _ _ _) (
            bind-IsAlike _ _ _ _ _ _ (map_err-IsAlike _ _ (path_to_transfer_string relative_path))
              λ relative. file-IsAlike root_index path relative metadata acc)))

  root_kind-IsAlike :
      (source : Text) (metadata : Metadata)
      → IsAlike
          (λ kind. kind)
          (local_root_kind host s source metadata)
          (root_kind host s source metadata)
  root_kind-IsAlike source metadata =
      if-IsAlike (λ kind. kind) (is_symlink metadata) _ _ _ _ (err-IsAlike _ _ _)
        (if-IsAlike (λ kind. kind) (is_dir metadata) _ _ _ _ (ok-IsAlike _ directory)
          (if-IsAlike (λ kind. kind) (is_file metadata) _ _ _ _ (ok-IsAlike _ file)
            (err-IsAlike _ _ _)))

  abbrev both : List TransferRoot × LocalCollected → List TransferRoot × Collected
  both (roots, all) = (roots, as_collected all)

  sources-IsAlike :
      (fuel : ℕ) (sources : List Text) (roots : List TransferRoot) (acc : LocalCollected)
      → IsAlike both
          (append_local_sources host s fuel sources roots acc)
          (append_sources host s fuel sources roots (as_collected acc))
  unfolding append_local_sources append_sources
  sources-IsAlike fuel [] roots acc = ok-IsAlike both (roots, acc)
  sources-IsAlike fuel (source ∷ sources) roots acc =
      bind-IsAlike _ _ _ _ _ _ (map_err-IsAlike _ _ (host.symlink_metadata source s)) λ metadata.
        bind-IsAlike _ _ _ _ _ _ (root_kind-IsAlike source metadata) λ kind.
          bind-IsAlike _ _ _ _ _ _ (same-IsAlike (transfer_source_name host s source)) λ name.
            bind-IsAlike _ _ _ _ _
              (append_sources host s fuel sources (
                roots
                ++ (record { source_name = name; kind = kind; mode = file_mode metadata } ∷ [])))
              (entry-IsAlike fuel (length roots) source [] metadata acc)
              λ next. sources-IsAlike fuel sources _ next

  manifest-IsAlike :
      (fuel : ℕ) (specs : List Text)
      → IsAlike as_manifest
          (build_local_batch_manifest host s fuel specs)
          (build_batch_manifest_from_sources host s fuel specs)
  unfolding build_local_batch_manifest build_batch_manifest_from_sources
  manifest-IsAlike fuel specs = bind-IsAlike _ _ _ _ _ _ (expand_sources-IsAlike specs) λ sources.
      bind-IsAlike _ _ _ _ _ _
        (sources-IsAlike fuel sources [] (record { entries = []; files = []; total_bytes = 0 }))
        λ all.
          bind-IsAlike _ _ _ _ _ _ (map_err-IsAlike _ _ (ensure_unique_root_names all.0)) λ unique.
            ok-IsAlike as_manifest (record {
              sources = sources;
              roots = all.0;
              entries = all.1.entries;
              files = all.1.files;
              total_bytes = all.1.total_bytes;
            })

-- Over the same file system the client's manifest of a batch push is the daemon's of a batch pull, up
-- to the sources and the index of each file's root: both have the same roots, entries, files and
-- total, or both are refused.
pub build_local_batch_manifest-same :
    {S : Type 0} (host : Host S) (s : S) (fuel : ℕ) (specs : List Text)
    → mapped as_manifest (value (build_local_batch_manifest host s fuel specs))
      ≡ value (build_batch_manifest_from_sources host s fuel specs)
build_local_batch_manifest-same host s fuel specs = (manifest-IsAlike host s fuel specs).same
