-- ===== src/Client/Batch/Filtered.antt =====
-- A part of a manifest is about the same roots (filter_local_batch_manifest of
-- crates/rsdb-cli/src/main.rs).
use rsdb.Base.{
  ℕ, ◌^◌, ◌≤◌, ◌<◌, some, List, [], ◌∷◌, any, get_elem?, length, ok, ◌==◌, if◌then◌else◌,
}
use rsdb.Base.{◌≡◌, refl, arith, inl, inr, Result-cases, Option-cases}
use rsdb.Proto.Messages.{TransferEntry}
use rsdb.Client.Batch.Manifest.{
  LocalBatchManifest, Selected, lookup, select_roots, remap_entries, file_total,
  filter_local_batch_manifest,
}
use rsdb.Client.Batch.Selection.{is_some, IsSelection, select_roots-IsChosen}

-- The entries of the chosen roots, in their order.
abbrev pub chosen_entries : List ℕ → List TransferEntry → List TransferEntry
chosen_entries indexes [] = []
chosen_entries indexes (entry ∷ entries) =
    let rest = chosen_entries indexes entries in
    if any (λ index. index == entry.root_index) indexes then entry ∷ rest else rest

-- A new index stands for the same root and source.
abbrev pub IsSameRoot : LocalBatchManifest → LocalBatchManifest → ℕ → ℕ → Type 0
IsSameRoot manifest part old new =
    (new < length part.roots)
    × (get_elem? part.roots new ≡ get_elem? manifest.roots old)
    × (get_elem? part.sources new ≡ get_elem? manifest.sources old)

-- The entries of the part, one for one: the same path, kind, mode and size, below the same root.
abbrev pub AreRemapped :
    LocalBatchManifest → LocalBatchManifest → List TransferEntry → List TransferEntry → Type 0
AreRemapped manifest part [] [] = Unit {0}
AreRemapped manifest part (e ∷ es) (r ∷ rs) =
    (r ≡ record e { root_index = r.root_index })
    × IsSameRoot manifest part e.root_index r.root_index
    × AreRemapped manifest part es rs
AreRemapped manifest part es rs = ⊥

module _ (manifest : LocalBatchManifest) where
  module _ (indexes : List ℕ) (part : LocalBatchManifest) (chosen : Selected)
      (same_roots : part.roots ≡ chosen.roots) (same_sources : part.sources ≡ chosen.sources)
      (sel : IsSelection manifest chosen)
      (found : (old : ℕ)
        → is_some (lookup chosen.remapped_indexes old) ≡ any (λ index. index == old) indexes) where
    lookup-IsSameRoot :
        (old new : ℕ)
        → lookup chosen.remapped_indexes old ≡ some new
        → IsSameRoot manifest part old new
    lookup-IsSameRoot old new e = rw (same_roots, same_sources) (sel.pairs old new e)

    remap_entries-AreRemapped :
        (entries : List TransferEntry)
        → AreRemapped manifest part
            (chosen_entries indexes entries)
            (remap_entries chosen.remapped_indexes entries)
    unfolding remap_entries
    remap_entries-AreRemapped [] = tt
    remap_entries-AreRemapped (entry ∷ entries) =
        elim (Option-cases (lookup chosen.remapped_indexes entry.root_index)) [
          | inl e ↦
              let left : chosen_entries indexes (entry ∷ entries) ≡ chosen_entries indexes entries =
                ground (arith, found entry.root_index, e) in
              let right : remap_entries chosen.remapped_indexes (entry ∷ entries)
                  ≡ remap_entries chosen.remapped_indexes entries =
                ground (arith, e) in
              rw (left, right) (remap_entries-AreRemapped entries)
          | inr (new, e) ↦
              let left : chosen_entries indexes (entry ∷ entries)
                  ≡ entry ∷ chosen_entries indexes entries =
                ground (arith, found entry.root_index, e) in
              let right : remap_entries chosen.remapped_indexes (entry ∷ entries)
                  ≡ record entry { root_index = new }
                    ∷ remap_entries chosen.remapped_indexes entries =
                ground (arith, e) in
              rw (left, right)
                (refl, lookup-IsSameRoot entry.root_index new e, remap_entries-AreRemapped entries)
        ]

-- The part of a manifest for some roots, where the code accepts their indexes, fewer than 2^32: it
-- has a root and a source for each index; its entries are those of the chosen roots, in their order,
-- each with its path, kind, mode and size, and each below the root and source of the part that are
-- its own; its total is that of its files.
pub filter_local_batch_manifest-AreRemapped :
    (manifest part : LocalBatchManifest) (indexes : List ℕ)
    → length indexes ≤ 2 ^ 32
    → filter_local_batch_manifest manifest indexes ≡ ok part
    → (length part.roots ≡ length indexes)
      × (length part.sources ≡ length indexes)
      × AreRemapped manifest part (chosen_entries indexes manifest.entries) part.entries
      × (part.total_bytes ≡ file_total part.files)
unfolding filter_local_batch_manifest
filter_local_batch_manifest-AreRemapped manifest part indexes small e =
    let empty : Selected = record { remapped_indexes = []; sources = []; roots = [] } in
    elim (Result-cases (select_roots manifest 0 indexes empty)) [
      | inl (chosen, s) ↦
          let all =
            select_roots-IsChosen manifest 0 indexes empty chosen
              (record { same_length = refl; pairs = λ old new x. ground arith }) refl
              (omega (arith, small)) s in
          let parts : (part.roots ≡ chosen.roots)
              × (part.sources ≡ chosen.sources)
              × (part.entries ≡ remap_entries chosen.remapped_indexes manifest.entries)
              × (part.total_bytes ≡ file_total part.files) =
            ground (arith, e, s) in
          (
            ground (arith, parts.0, all.count),
            ground (arith, parts.1, all.count, all.selection.same_length),
            rw (parts.2) (
                remap_entries-AreRemapped manifest indexes part chosen parts.0 parts.1 all.selection
                  all.found manifest.entries),
            parts.3,
          )
      | inr (x, s) ↦ let refused : ⊥ = ground (arith, e, s) in absurd refused
    ]
