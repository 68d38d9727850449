-- ===== src/Paths/Roots.antt =====
-- The names of a transfer's roots (`ensure_unique_root_names` of device/rsdbd/src/main.rs).
use rsdb.Base.{false, List, [], ◌∷◌, ◌≡◌, refl, arith, ok, inl, inr, map, ◌↔◌, Bool-cases}
use rsdb.Base.Texts.{Text, contains, text_eq, text_eq_iff}
use rsdb.Proto.Messages.{TransferRoot}
use rsdb.Paths.Transfer.{ensure_unique_root_names, unique_root_names}

abbrev pub NoRepeat : List Text → Type 0
NoRepeat [] = Unit
NoRepeat (x ∷ xs) = (contains xs x ≡ false) × NoRepeat xs

text_eq_comm : (a b : Text) → text_eq a b ≡ text_eq b a
text_eq_comm a b = ground (arith, text_eq_iff a b, text_eq_iff b a)

abbrev Disjoint : List Text → List Text → Type 0
Disjoint seen [] = Unit
Disjoint seen (x ∷ xs) = (contains seen x ≡ false) × Disjoint seen xs

abbrev names : List TransferRoot → List Text
names = map (λ r. r.source_name)

Disjoint-cons :
    (seen : List Text) (x : Text) (xs : List Text)
    → Disjoint (x ∷ seen) xs
    → (contains xs x ≡ false) × Disjoint seen xs
Disjoint-cons seen x [] h = (refl, tt)
Disjoint-cons seen x (y ∷ xs) (hy, h) =
    let (a, b) = Disjoint-cons seen x xs h in ground (arith, text_eq_comm x y)

Disjoint-fresh :
    (seen : List Text) (x : Text) (xs : List Text)
    → contains xs x ≡ false
    → Disjoint seen xs
    → Disjoint (x ∷ seen) xs
Disjoint-fresh seen x [] f h = tt
Disjoint-fresh seen x (y ∷ xs) f (hy, h) =
    let rest = Disjoint-fresh seen x xs (ground arith) h in ground (arith, text_eq_comm x y)

unique_ok :
    (seen : List Text) (roots : List TransferRoot)
    → unique_root_names seen roots ≡ ok tt
    → NoRepeat (names roots) × Disjoint seen (names roots)
unfolding unique_root_names
unique_ok seen [] e = (tt, tt)
unique_ok seen (root ∷ roots) e = elim (Bool-cases (contains seen root.source_name)) [
  | inl h ↦ cc (rw h at e)
  | inr h ↦
      let (n, d) = unique_ok (root.source_name ∷ seen) roots (rw h at e) in
      let (a, b) = Disjoint-cons seen root.source_name (names roots) d in ((a, n), (h, b))
]

unique_complete :
    (seen : List Text) (roots : List TransferRoot)
    → NoRepeat (names roots)
    → Disjoint seen (names roots)
    → unique_root_names seen roots ≡ ok tt
unfolding unique_root_names
unique_complete seen [] n d = refl
unique_complete seen (root ∷ roots) (f, n) (h, d) = rw h (
    unique_complete (root.source_name ∷ seen) roots n
      (Disjoint-fresh seen root.source_name (names roots) f d))

Disjoint-nil : (xs : List Text) → Disjoint [] xs
Disjoint-nil [] = tt
Disjoint-nil (x ∷ xs) = (refl, Disjoint-nil xs)

-- The roots of a manifest are accepted exactly when no two of them have the same name.
pub ensure_unique_root_names_iff :
    (roots : List TransferRoot)
    → (ensure_unique_root_names roots ≡ ok tt) ↔ NoRepeat (map (λ r. r.source_name) roots)
unfolding ensure_unique_root_names
ensure_unique_root_names_iff roots =
    (λ e. (unique_ok [] roots e).0, λ n. unique_complete [] roots n (Disjoint-nil (names roots)))
