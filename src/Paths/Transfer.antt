-- ===== src/Paths/Transfer.antt =====
-- The paths of a transfer, and the names of its roots (device/rsdbd/src/main.rs; the functions of
-- the same names in crates/rsdb-cli/src/main.rs are the same code).
use rsdb.Base.{ℕ, Bool, ◌||◌, none, some, List, [], ◌∷◌, ◌++◌, ◌==◌}
use rsdb.Base.{Result, ok, err, ◌>>=◌, get_elem?, any, if◌then◌else◌}
use rsdb.Base.Texts.{Text, is_empty, contains, codes}
use rsdb.Proto.Messages.{TransferRoot, TransferEntry}
use rsdb.Paths.Components.{Component, normal, components, join}

-- The errors of these functions, each a `bail!` with a message of its own.
pub data PathError : Type 0 where
  invalid_transfer_path : Text → PathError
  invalid_root_index : ℕ → PathError
  duplicate_root_name : Text → PathError

-- The loop of `join_transfer_relative_path`.
unfoldable pub push_components : Text → Text → List Component → Result PathError Text
push_components relative_path resolved [] = ok resolved
push_components relative_path resolved (normal part ∷ rest) =
    push_components relative_path (join resolved part) rest
push_components relative_path resolved (_ ∷ rest) = err (invalid_transfer_path relative_path)

unfoldable pub join_transfer_relative_path : Text → Text → Result PathError Text
unfolding push_components
join_transfer_relative_path base relative_path =
    if is_empty relative_path
    then ok base
    else push_components relative_path base (components relative_path)

unfoldable pub resolve_transfer_entry_path : List Text → TransferEntry → Result PathError Text
resolve_transfer_entry_path root_paths entry = elim (get_elem? root_paths entry.root_index) [
  | none ↦ err (invalid_root_index entry.root_index)
  | some root_path ↦ join_transfer_relative_path root_path entry.relative_path
]

-- The loop of `ensure_unique_root_names`, with the set of the names seen.
unfoldable pub unique_root_names : List Text → List TransferRoot → Result PathError (Unit {0})
unique_root_names seen [] = ok tt
unique_root_names seen (root ∷ roots) =
    if contains seen root.source_name
    then err (duplicate_root_name root.source_name)
    else unique_root_names (root.source_name ∷ seen) roots

unfoldable pub ensure_unique_root_names : List TransferRoot → Result PathError (Unit {0})
unfolding unique_root_names
ensure_unique_root_names roots = unique_root_names [] roots

-- `value.bytes().any(|byte| matches!(byte, b'*' | b'?' | b'['))`
unfoldable pub has_glob_pattern : Text → Bool
has_glob_pattern value = any (λ byte. byte == b'*' || byte == b'?' || byte == b'[') value

abbrev join_parts : List Text → Text
join_parts [] = []
join_parts (part ∷ []) = part
join_parts (part ∷ next ∷ parts) = part ++ (codes "/" ++ join_parts (next ∷ parts))

abbrev normal_parts : Text → List Component → Result PathError (List Text)
normal_parts path [] = ok []
normal_parts path (normal part ∷ rest) = do parts ← normal_parts path rest; ok (part ∷ parts)
normal_parts path (_ ∷ rest) = err (invalid_transfer_path path)

-- On a path that is valid UTF-8, where `to_string_lossy` changes nothing.
unfoldable pub path_to_transfer_string : Text → Result PathError Text
path_to_transfer_string path =
    if is_empty path
    then ok []
    else do parts ← normal_parts path (components path); ok (join_parts parts)
