-- ===== src/Client/Registry/Connect.antt =====
-- What connect and disconnect leave in the registry (crates/rsdb-cli/src/main.rs).
use rsdb.Base.{false, not, ◌||◌, ◌&&◌, some, List, [], ◌∷◌, ◌++◌, length, any, get_elem?}
use rsdb.Base.{◌≡◌, refl, ap, arith, inl, inr, Bool-cases}
use rsdb.Base.Texts.{Text, text_eq, text_eq_iff, text_eq_refl}
use rsdb.Client.Registry.{
  StoredTarget, Registry, has_addr, retain_others, connect, primary_target, position,
}
use rsdb.Client.Registry.Normal.{Distinct, IsNormal, any-append, append-Distinct}
use rsdb.Client.Registry.Fixed.{IsFound, primary_target-current}

any-retain_others :
    (a b : Text) (ts : List StoredTarget)
    → any (has_addr b) (retain_others a ts) ≡ (any (has_addr b) ts && not (text_eq a b))
unfolding retain_others
any-retain_others a b [] = refl
any-retain_others a b (t ∷ ts) = elim (Bool-cases (has_addr a t)) [
  | inl e ↦
      let same : t.addr ≡ a = (text_eq_iff t.addr a).0 e in
      ground (arith, ap (λ c. text_eq c b) same, any-retain_others a b ts)
  | inr e ↦ elim (Bool-cases (text_eq a b)) [
    | inl f ↦
        let same : a ≡ b = (text_eq_iff a b).0 f in
        ground (arith, ap (λ c. text_eq t.addr c) same, any-retain_others a b ts)
    | inr f ↦ ground (arith, any-retain_others a b ts)
  ]
]

retain_others-Distinct :
    (a : Text) (ts : List StoredTarget) → Distinct ts → Distinct (retain_others a ts)
unfolding retain_others
retain_others-Distinct a [] d = tt
retain_others-Distinct a (t ∷ ts) d = elim (Bool-cases (has_addr a t)) [
  | inl e ↦ rw e (retain_others-Distinct a ts d.1)
  | inr e ↦
      rw e (ground (arith, any-retain_others a t.addr ts, d.0), retain_others-Distinct a ts d.1)
]

position-append :
    (ts : List StoredTarget) (t : StoredTarget)
    → any (has_addr t.addr) ts ≡ false
    → (position (has_addr t.addr) (ts ++ (t ∷ [])) ≡ some (length ts))
      × (get_elem? (ts ++ (t ∷ [])) (length ts) ≡ some t)
unfolding position
position-append [] t h = (ground (arith, text_eq_refl t.addr), refl)
position-append (u ∷ ts) t h = ground (arith, position-append ts t)

-- After connecting to an address, it is saved once, under the chosen name, and is the primary target;
-- every other address is saved or not as before. A registry that was normal stays normal.
pub connect-IsNormal :
    (name addr other : Text) (registry : Registry)
    → IsNormal registry
    → IsNormal (connect name addr registry)
      × (primary_target (connect name addr registry) ≡ some (record { name = name; addr = addr }))
      × (any (has_addr other) (connect name addr registry).targets
          ≡ (any (has_addr other) registry.targets || text_eq addr other))
unfolding connect
connect-IsNormal name addr other registry (d, c) =
    let target : StoredTarget = record { name = name; addr = addr } in
    let others = retain_others addr registry.targets in
    let fresh : any (has_addr addr) others ≡ false =
      ground (arith, any-retain_others addr addr registry.targets, text_eq_refl addr) in
    let (here, there) = position-append others target fresh in
    let found : IsFound addr (others ++ (target ∷ [])) = record {
      index = length others;
      target = target;
      here = here;
      there = there;
      same = refl;
    } in
    (
      (
        append-Distinct others target (retain_others-Distinct addr registry.targets d) fresh,
        inr (addr, refl, ground (arith, any-append addr others (target ∷ []), text_eq_refl addr)),
      ),
      primary_target-current (connect name addr registry) addr refl found,
      ground (
        arith,
        any-append other others (target ∷ []),
        any-retain_others addr other registry.targets,
      ),
    )
