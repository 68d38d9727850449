-- ===== src/Client/Batch/Manifest.antt =====
-- The manifest of a batch push, and its part for some of the roots: filter_local_batch_manifest
-- (crates/rsdb-cli/src/main.rs).
use rsdb.Base.{
  ℕ, ◌+◌, ◌%◌, ◌^◌, Option, none, some, List, [], ◌∷◌, ◌++◌, get_elem?, Result, ok, err, ◌>>=◌,
  ◌==◌, if◌then◌else◌,
}
use rsdb.Base.Texts.{Text, codes, decimal}
use rsdb.Proto.Messages.{TransferRoot, TransferEntry}
use rsdb.Daemon.Error.{Error, bail}

pub record LocalBatchFile : Type 0 where
  pub root_index : ℕ
  pub path : Text
  pub size : ℕ

pub record LocalBatchManifest : Type 0 where
  pub sources : List Text
  pub roots : List TransferRoot
  pub entries : List TransferEntry
  pub files : List LocalBatchFile
  pub total_bytes : ℕ

-- `remapped_indexes`, the newest pair first, with the sources and the roots that were chosen.
pub record Selected : Type 0 where
  pub remapped_indexes : List (ℕ × ℕ)
  pub sources : List Text
  pub roots : List TransferRoot

-- `get` of the map, where a newer pair replaces an older one.
abbrev pub lookup : List (ℕ × ℕ) → ℕ → Option ℕ
lookup [] index = none
lookup ((key, value) ∷ pairs) index =
    let older = lookup pairs index in if key == index then some value else older

abbrev invalid_root : ℕ → Error
invalid_root index = bail (codes "invalid local batch manifest root index " ++ decimal index)

abbrev root_or_fail : {A : Type 0} → ℕ → Option A → Result Error A
root_or_fail index none = err (invalid_root index)
root_or_fail index (some a) = ok a

-- The loop over the indexes, whose number is `new_index`.
unfoldable pub select_roots : LocalBatchManifest → ℕ → List ℕ → Selected → Result Error Selected
select_roots manifest new_index [] chosen = ok chosen
select_roots manifest new_index (root_index ∷ root_indexes) chosen = do
  source ← root_or_fail root_index (get_elem? manifest.sources root_index)
  root ← root_or_fail root_index (get_elem? manifest.roots root_index)
  select_roots manifest (new_index + 1) root_indexes (record {
    remapped_indexes = (root_index, new_index % 2 ^ 32) ∷ chosen.remapped_indexes;
    sources = chosen.sources ++ (source ∷ []);
    roots = chosen.roots ++ (root ∷ []);
  })

-- `filter_map` over the entries.
unfoldable pub remap_entries : List (ℕ × ℕ) → List TransferEntry → List TransferEntry
remap_entries pairs [] = []
remap_entries pairs (entry ∷ entries) =
    let rest = remap_entries pairs entries in
    elim (lookup pairs entry.root_index) [
      | none ↦ rest
      | some index ↦ record entry { root_index = index } ∷ rest
    ]

-- `filter_map` over the files.
unfoldable pub remap_files : List (ℕ × ℕ) → List LocalBatchFile → List LocalBatchFile
remap_files pairs [] = []
remap_files pairs (file ∷ files) =
    let rest = remap_files pairs files in
    elim (lookup pairs file.root_index) [
      | none ↦ rest
      | some index ↦ record file { root_index = index } ∷ rest
    ]

abbrev pub file_total : List LocalBatchFile → ℕ
file_total [] = 0
file_total (file ∷ files) = file.size + file_total files

unfoldable pub filter_local_batch_manifest :
    LocalBatchManifest → List ℕ → Result Error LocalBatchManifest
unfolding select_roots remap_entries remap_files
filter_local_batch_manifest manifest root_indexes = do
  chosen ←
      select_roots manifest 0 root_indexes
        (record { remapped_indexes = []; sources = []; roots = [] })
  let files = remap_files chosen.remapped_indexes manifest.files
  ok (record {
    sources = chosen.sources;
    roots = chosen.roots;
    entries = remap_entries chosen.remapped_indexes manifest.entries;
    files = files;
    total_bytes = file_total files;
  })
