-- ===== src/Client/Batch/Selection.antt =====
-- The roots that filter_local_batch_manifest chooses (crates/rsdb-cli/src/main.rs).
use rsdb.Base.{
  ℕ, suc, zero, ◌+◌, ◌^◌, ◌≤◌, ◌<◌, Bool, true, false, ◌||◌, Option, none, some, List, [], ◌∷◌,
  ◌++◌, any, get_elem?, length, length-append, ok, ◌==◌,
}
use rsdb.Base.{◌≡◌, refl, ◌∙◌, arith, inl, inr, Bool-cases, Option-cases, ==_iff}
use rsdb.Base.Texts.{Text}
use rsdb.Proto.Messages.{TransferRoot}
use rsdb.Client.Batch.Manifest.{LocalBatchManifest, Selected, lookup, select_roots}

get_elem?-append_l :
    {A : Type 0}
    → (xs ys : List A) (i : ℕ) → i < length xs
    → get_elem? (xs ++ ys) i ≡ get_elem? xs i
get_elem?-append_l [] ys i h = ground arith
get_elem?-append_l (x ∷ xs) ys zero h = refl
get_elem?-append_l (x ∷ xs) ys (suc i) h = get_elem?-append_l xs ys i (omega arith)

get_elem?-append_end :
    {A : Type 0} → (xs : List A) (x : A) → get_elem? (xs ++ (x ∷ [])) (length xs) ≡ some x
get_elem?-append_end [] x = refl
get_elem?-append_end (y ∷ xs) x = get_elem?-append_end xs x

abbrev pub is_some : {A : Type 0} → Option A → Bool
is_some none = false
is_some (some a) = true

-- What the loop keeps: each pair stands for one root.
pub record IsSelection (manifest : LocalBatchManifest) (chosen : Selected) : Type 0 where
  pub same_length : length chosen.sources ≡ length chosen.roots
  pub pairs :
      (old new : ℕ)
      → lookup chosen.remapped_indexes old ≡ some new
      → (new < length chosen.roots)
        × (get_elem? chosen.roots new ≡ get_elem? manifest.roots old)
        × (get_elem? chosen.sources new ≡ get_elem? manifest.sources old)

abbrev push_root : ℕ → ℕ → Text → TransferRoot → Selected → Selected
push_root index new source root chosen = record {
  remapped_indexes = (index, new) ∷ chosen.remapped_indexes;
  sources = chosen.sources ++ (source ∷ []);
  roots = chosen.roots ++ (root ∷ []);
}

module _ (manifest : LocalBatchManifest) where
  push_root-pairs :
      (index : ℕ) (source : Text) (root : TransferRoot) (chosen : Selected) (old new : ℕ)
      → IsSelection manifest chosen
      → get_elem? manifest.sources index ≡ some source
      → get_elem? manifest.roots index ≡ some root
      → lookup ((index, length chosen.roots) ∷ chosen.remapped_indexes) old ≡ some new
      → (new < length (chosen.roots ++ (root ∷ [])))
        × (get_elem? (chosen.roots ++ (root ∷ [])) new ≡ get_elem? manifest.roots old)
        × (get_elem? (chosen.sources ++ (source ∷ [])) new ≡ get_elem? manifest.sources old)
  push_root-pairs index source root chosen old new sel s r e = elim (Bool-cases (index == old)) [
    | inl same ↦
        let is_old : index ≡ old = ground (arith, ==_iff index old) in
        let is_new : length chosen.roots ≡ new = ground arith in
        (
          omega (arith, length-append chosen.roots (root ∷ []), is_new),
          cc (get_elem?-append_end chosen.roots root, is_new, is_old, r),
          cc (get_elem?-append_end chosen.sources source, sel.same_length, is_new, is_old, s),
        )
    | inr other ↦
        let e' : lookup chosen.remapped_indexes old ≡ some new = ground arith in
        let (below, roots, sources) = sel.pairs old new e' in
        (
          omega (arith, length-append chosen.roots (root ∷ [])),
          get_elem?-append_l chosen.roots (root ∷ []) new below ∙ roots,
          get_elem?-append_l chosen.sources (source ∷ []) new (omega (arith, sel.same_length))
              ∙ sources,
        )
  ]

  push_root-IsSelection :
      (index : ℕ) (source : Text) (root : TransferRoot) (chosen : Selected)
      → IsSelection manifest chosen
      → get_elem? manifest.sources index ≡ some source
      → get_elem? manifest.roots index ≡ some root
      → IsSelection manifest (push_root index (length chosen.roots) source root chosen)
  push_root-IsSelection index source root chosen sel s r = record {
    same_length = omega (
      arith,
      length-append chosen.roots (root ∷ []),
      length-append chosen.sources (source ∷ []),
      sel.same_length,
    );
    pairs = λ old new e. push_root-pairs index source root chosen old new sel s r e;
  }

  -- The loop has chosen the roots of these indexes.
  pub record IsChosen (indexes : List ℕ) (chosen result : Selected) : Type 0 where
    pub selection : IsSelection manifest result
    pub count : length result.roots ≡ length chosen.roots + length indexes
    pub found :
        (old : ℕ)
        → is_some (lookup result.remapped_indexes old)
          ≡ (is_some (lookup chosen.remapped_indexes old) || any (λ index. index == old) indexes)

  pub select_roots-IsChosen :
      (n : ℕ) (indexes : List ℕ) (chosen result : Selected)
      → IsSelection manifest chosen
      → length chosen.roots ≡ n
      → n + length indexes ≤ 2 ^ 32
      → select_roots manifest n indexes chosen ≡ ok result
      → IsChosen indexes chosen result
  unfolding select_roots
  select_roots-IsChosen n [] chosen result sel c small e =
      let same : chosen ≡ result = ground arith in
      rw (← same) (record { selection = sel; count = omega arith; found = λ old. ground arith })
  select_roots-IsChosen n (index ∷ indexes) chosen result sel c small e =
      elim (Option-cases (get_elem? manifest.sources index)) [
        | inl s ↦ let refused : ⊥ = ground (arith, e, s) in absurd refused
        | inr (source, s) ↦ elim (Option-cases (get_elem? manifest.roots index)) [
          | inl r ↦ let refused : ⊥ = ground (arith, e, s, r) in absurd refused
          | inr (root, r) ↦
              let next = push_root index (length chosen.roots) source root chosen in
              let rest =
                select_roots-IsChosen (n + 1) indexes next result
                  (push_root-IsSelection index source root chosen sel s r)
                  (omega (arith, length-append chosen.roots (root ∷ []), c)) (omega arith)
                  (ground (arith, e, s, r, c)) in
              record {
                selection = rest.selection;
                count = omega (arith, rest.count, length-append chosen.roots (root ∷ []));
                found = λ old. ground (arith, rest.found old);
              }
        ]
      ]
