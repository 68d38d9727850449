-- ===== src/Daemon/Fs/Order.antt =====
-- The order of `Path`, by components, and `sort()` of a list of paths (device/rsdbd/src/main.rs).
use rsdb.Base.{
  Bool, true, false, List, [], ◌∷◌, ◌≡◌, refl, arith, ltb, ◌==◌, if◌then◌else◌, Bool-cases, inl,
  inr, map,
}
use rsdb.Base.Texts.{Text, text_eq, text_eq_sym, text_eq_iff, text_eq_refl}
use rsdb.Paths.Components.{Component, root_dir, cur_dir, parent_dir, normal, components}

unfoldable pub bytes_le : Text → Text → Bool
bytes_le [] q = true
bytes_le (a ∷ p) [] = false
bytes_le (a ∷ p) (b ∷ q) = let rest = bytes_le p q in if a == b then rest else ltb a b

-- The order of `Component`: the place of the variant, then the name.
abbrev pub sort_key : Component → Text
sort_key root_dir = 0 ∷ []
sort_key cur_dir = 1 ∷ []
sort_key parent_dir = 2 ∷ []
sort_key (normal part) = 3 ∷ part

unfoldable pub keys_le : List Text → List Text → Bool
keys_le [] q = true
keys_le (a ∷ p) [] = false
keys_le (a ∷ p) (b ∷ q) = let rest = keys_le p q in if text_eq a b then rest else bytes_le a b

unfoldable pub path_le : Text → Text → Bool
unfolding keys_le bytes_le
path_le p q = keys_le (map sort_key (components p)) (map sort_key (components q))

unfoldable pub insert_path : Text → List Text → List Text
insert_path p [] = p ∷ []
insert_path p (q ∷ paths) =
    let rest = insert_path p paths in if path_le p q then p ∷ (q ∷ paths) else q ∷ rest

unfoldable pub sort_paths : List Text → List Text
sort_paths [] = []
sort_paths (p ∷ paths) = insert_path p (sort_paths paths)

bytes_le_total : (p q : Text) → bytes_le p q ≡ false → bytes_le q p ≡ true
unfolding bytes_le
bytes_le_total [] q h = cc
bytes_le_total (a ∷ p) [] h = refl
bytes_le_total (a ∷ p) (b ∷ q) h = ground (arith, bytes_le_total p q)

keys_le_total : (p q : List Text) → keys_le p q ≡ false → keys_le q p ≡ true
unfolding keys_le
keys_le_total [] q h = cc
keys_le_total (a ∷ p) [] h = refl
keys_le_total (a ∷ p) (b ∷ q) h = elim (Bool-cases (text_eq a b)) [
  | inl e ↦
      let same : a ≡ b = (text_eq_iff a b).0 e in
      ground (arith, same, text_eq_refl b, keys_le_total p q)
  | inr e ↦ ground (arith, text_eq_sym a b e, bytes_le_total a b)
]

path_le_total : (p q : Text) → path_le p q ≡ false → path_le q p ≡ true
unfolding path_le
path_le_total p q h = keys_le_total (map sort_key (components p)) (map sort_key (components q)) h

abbrev pub Leads : Text → List Text → Type 0
Leads p [] = Unit
Leads p (q ∷ paths) = path_le p q ≡ true

-- Each path is at most the next one.
abbrev pub IsSorted : List Text → Type 0
IsSorted [] = Unit
IsSorted (p ∷ paths) = Leads p paths × IsSorted paths

Leads-insert_path :
    (q p : Text) (paths : List Text)
    → Leads q paths
    → path_le q p ≡ true
    → Leads q (insert_path p paths)
unfolding insert_path
Leads-insert_path q p [] l h = h
Leads-insert_path q p (r ∷ paths) l h = elim (Bool-cases (path_le p r)) [
  | inl e ↦ rw e h
  | inr e ↦ rw e l
]

insert_path-IsSorted :
    (p : Text) (paths : List Text) → IsSorted paths → IsSorted (insert_path p paths)
unfolding insert_path
insert_path-IsSorted p [] h = (tt, tt)
insert_path-IsSorted p (q ∷ paths) h = elim (Bool-cases (path_le p q)) [
  | inl e ↦ rw e (e, h)
  | inr e ↦
      rw e (Leads-insert_path q p paths h.0 (path_le_total p q e), insert_path-IsSorted p paths h.1)
]

pub sort_paths-IsSorted : (paths : List Text) → IsSorted (sort_paths paths)
unfolding sort_paths
sort_paths-IsSorted [] = tt
sort_paths-IsSorted (p ∷ paths) =
    insert_path-IsSorted p (sort_paths paths) (sort_paths-IsSorted paths)
