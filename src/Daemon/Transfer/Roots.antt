-- ===== src/Daemon/Transfer/Roots.antt =====
-- Where a push lands: `resolve_push_destination` and `resolve_batch_destination_roots`
-- (device/rsdbd/src/main.rs).
use rsdb.Base.{
  ℕ, Bool, false, not, ◌||◌, Option, none, some, List, [], ◌∷◌, ◌++◌, Result, ok, err, map_err, map,
  all, ◌==◌, if◌then◌else◌,
}
use rsdb.Base.Exec.{Exec, pure, throw, lift, ◌>>=◌, ◌>>◌}
use rsdb.Base.Texts.{Text, codes, is_empty, decimal}
use rsdb.Proto.Wire.{not_found}
use rsdb.Proto.Messages.{TransferRoot}
use rsdb.Paths.Components.{join, ends_with_slash}
use rsdb.Paths.Transfer.{
  ensure_unique_root_names, PathError, invalid_transfer_path, invalid_root_index,
  duplicate_root_name,
}
use rsdb.Daemon.Error.{Error, bail, io_kind_eq}
use rsdb.Daemon.Host.{Host, Metadata, io_context}
use rsdb.Daemon.Fs.Entries.{is_dir}

-- The messages of the path functions.
abbrev pub from_path_error : PathError → Error
from_path_error (invalid_transfer_path path) = bail (codes "invalid transfer path: " ++ path)
from_path_error (invalid_root_index index) =
    bail (codes "invalid transfer root index " ++ decimal index)
from_path_error (duplicate_root_name name) =
    bail (codes "duplicate transfer root name `" ++ (name ++ codes "` is not supported"))

abbrev pub is_directory : Option Metadata → Bool
is_directory none = false
is_directory (some metadata) = is_dir metadata

abbrev pub is_other : Option Metadata → Bool
is_other none = false
is_other (some metadata) = not (is_dir metadata)

-- The ASCII white space of `trim`; the Unicode one is not modelled.
abbrev pub is_blank : ℕ → Bool
is_blank c = c == 9 || c == 10 || c == 11 || c == 12 || c == 13 || c == 32

-- `source_name.filter(|name| !name.trim().is_empty())`
abbrev usable_name : Option Text → Option Text
usable_name none = none
usable_name (some name) = if all is_blank name then none else some name

abbrev join_name : Text → Option Text → Result Error Text
join_name base none =
    err (bail (codes "remote path refers to a directory but source file name is missing"))
join_name base (some name) = ok (join base name)

module _ {S : Type 0} (host : Host S) where
  -- `metadata`, with a missing file told apart from the errors.
  unfoldable pub metadata_optional : Text → Text → Exec S Error (Option Metadata)
  metadata_optional context path s = elim (host.metadata path s) [
    | ok metadata ↦ (ok (some metadata), s)
    | err e ↦
        if io_kind_eq e.kind not_found
        then (ok none, s)
        else (err (io_context (context ++ path) e), s)
  ]

  unfoldable pub resolve_push_destination : Text → Option Text → Exec S Error Text
  unfolding metadata_optional
  resolve_push_destination path source_name =
      if is_empty path then throw (bail (codes "remote path must not be empty")) else do
        existing ← metadata_optional (codes "failed to stat remote path: ") path
        if is_directory existing || ends_with_slash path
            then lift (join_name path (usable_name source_name))
            else pure path

  -- The base of each root, given what is known of the destination.
  unfoldable pub root_bases : Text → List TransferRoot → Option Metadata → Result Error (List Text)
  root_bases destination (root ∷ []) existing = ok (
      (if is_directory existing || ends_with_slash destination
        then join destination root.source_name
        else destination)
      ∷ [])
  root_bases destination roots existing =
      if is_other existing
      then err (bail (codes "remote destination is not a directory: " ++ destination))
      else ok (map (λ root. join destination root.source_name) roots)

  unfoldable pub resolve_batch_destination_roots :
      Text → List TransferRoot → Exec S Error (List Text)
  unfolding metadata_optional root_bases
  resolve_batch_destination_roots destination roots =
      if is_empty roots
      then throw (bail (codes "transfer manifest did not include any roots"))
      else do
        lift (map_err from_path_error (ensure_unique_root_names roots))
        if is_empty destination then throw (bail (codes "remote path must not be empty")) else do
          existing ← metadata_optional (codes "failed to stat remote destination ") destination
          lift (root_bases destination roots existing)
