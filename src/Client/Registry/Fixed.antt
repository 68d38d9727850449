-- ===== src/Client/Registry/Fixed.antt =====
-- A normal registry is loaded as it is: reading the file again changes nothing
-- (crates/rsdb-cli/src/main.rs).
use mathlib.Core.List.{append_assoc, append-nil}
use rsdb.Base.{ℕ, suc, true, false, none, some, List, [], ◌∷◌, ◌++◌, any, get_elem?}
use rsdb.Base.{◌≡◌, refl, sym, ◌∙◌, arith, inl, inr, Bool-cases, Option-cases}
use rsdb.Base.Texts.{text_eq_sym, Text, text_eq_iff}
use rsdb.Client.Registry.{
  StoredTarget, Registry, has_addr, remove_addr, dedupe, normalize_registry, primary_target,
  position,
}
use rsdb.Client.Registry.Normal.{Distinct, IsNormal, any-append}

remove_addr-absent :
    (a : Text) (ts : List StoredTarget) → any (has_addr a) ts ≡ false → remove_addr a ts ≡ ts
unfolding remove_addr
remove_addr-absent a [] h = refl
remove_addr-absent a (t ∷ ts) h = ground (arith, remove_addr-absent a ts)

Distinct-absent :
    (acc ts : List StoredTarget) (t : StoredTarget)
    → Distinct (acc ++ (t ∷ ts))
    → any (has_addr t.addr) acc ≡ false
Distinct-absent [] ts t d = refl
Distinct-absent (u ∷ acc) ts t d = ground (
  arith,
  any-append u.addr acc (t ∷ ts),
  d.0,
  text_eq_sym t.addr u.addr,
  Distinct-absent acc ts t d.1,
)

dedupe-Distinct_id : (acc ts : List StoredTarget) → Distinct (acc ++ ts) → dedupe acc ts ≡ acc ++ ts
unfolding dedupe
dedupe-Distinct_id acc [] d = sym (append-nil acc)
dedupe-Distinct_id acc (t ∷ ts) d =
    let moved : Distinct ((acc ++ (t ∷ [])) ++ ts) = rw (append_assoc acc (t ∷ []) ts) d in
    rw (remove_addr-absent t.addr acc (Distinct-absent acc ts t d))
      (dedupe-Distinct_id (acc ++ (t ∷ [])) ts moved ∙ append_assoc acc (t ∷ []) ts)

-- The first target with an address that is saved.
pub record IsFound (a : Text) (ts : List StoredTarget) : Type 0 where
  pub index : ℕ
  pub target : StoredTarget
  pub here : position (has_addr a) ts ≡ some index
  pub there : get_elem? ts index ≡ some target
  pub same : target.addr ≡ a

pub position-IsFound :
    (a : Text) (ts : List StoredTarget) → any (has_addr a) ts ≡ true → IsFound a ts
unfolding position
position-IsFound a [] h = cc
position-IsFound a (t ∷ ts) h = elim (Bool-cases (has_addr a t)) [
  | inl e ↦ record {
    index = 0;
    target = t;
    here = elim (Option-cases (position (has_addr a) ts)) [
      | inl f ↦ ground arith
      | inr (i, f) ↦ ground arith
    ];
    there = refl;
    same = (text_eq_iff t.addr a).0 e;
  }
  | inr e ↦
      let found = position-IsFound a ts (ground arith) in
      record {
        index = suc found.index;
        target = found.target;
        here = ground (arith, found.here);
        there = found.there;
        same = found.same;
      }
]

pub primary_target-current :
    (registry : Registry) (addr : Text)
    → registry.current_target ≡ some addr
    → (found : IsFound addr registry.targets) → primary_target registry ≡ some found.target
unfolding primary_target
primary_target-current registry addr c found = ground (arith, c, found.here, found.there)

registry_eq : (r s : Registry) → r.targets ≡ s.targets → r.current_target ≡ s.current_target → r ≡ s
registry_eq r s e f = λ i. record { targets = e i; current_target = f i }

primary_target-none :
    (registry : Registry)
    → registry.targets ≡ []
    → registry.current_target ≡ none
    → primary_target registry ≡ none
unfolding primary_target
primary_target-none registry e c = ground (arith, e, c)

-- A normal registry is its own normal form, so that loading what was saved returns it and writes
-- nothing.
pub normalize_registry-id :
    (registry : Registry) → IsNormal registry → normalize_registry registry ≡ registry
unfolding normalize_registry
normalize_registry-id registry (d, inl (e, c)) =
    registry_eq (normalize_registry registry) registry (dedupe-Distinct_id [] registry.targets d) (
      ground
        (arith, dedupe-Distinct_id [] registry.targets d, primary_target-none registry e c, e, c))
normalize_registry-id registry (d, inr (addr, c, known)) =
    let found = position-IsFound addr registry.targets known in
    registry_eq (normalize_registry registry) registry (dedupe-Distinct_id [] registry.targets d) (
      ground (
        arith,
        dedupe-Distinct_id [] registry.targets d,
        primary_target-current registry addr c found,
        found.same,
        known,
        c,
      ))
