-- ===== src/Client/Registry/Normal.antt =====
-- What `load_registry` and `save_registry` give is normal: no address is saved twice, and the
-- current target is a saved one (crates/rsdb-cli/src/main.rs).
use rsdb.Base.{true, false, ◌||◌, Option, none, some, List, [], ◌∷◌, ◌++◌, any}
use rsdb.Base.{◌≡◌, refl, sym, ap, ◌∙◌, arith, inl, inr, ◌⊎◌, Bool-cases, Option-cases}
use rsdb.Base.Texts.{text_eq_sym, Text, text_eq_iff, text_eq_refl}
use rsdb.Client.Registry.{
  StoredTarget, Registry, has_addr, remove_addr, dedupe, normalize_registry, primary_target,
  keep_known, addr_of, last,
}

-- No two targets have the same address.
abbrev pub Distinct : List StoredTarget → Type 0
Distinct [] = Unit
Distinct (target ∷ targets) = (any (has_addr target.addr) targets ≡ false) × Distinct targets

abbrev pub IsNormal : Registry → Type 0
IsNormal registry =
    Distinct registry.targets
    × (((registry.targets ≡ []) × (registry.current_target ≡ none))
        ⊎ ((addr : Text) × (registry.current_target ≡ some addr)
            × (any (has_addr addr) registry.targets ≡ true)))

pub any-append :
    (a : Text) (ts us : List StoredTarget)
    → any (has_addr a) (ts ++ us) ≡ (any (has_addr a) ts || any (has_addr a) us)
any-append a [] us = refl
any-append a (t ∷ ts) us = ground (arith, any-append a ts us)

any-remove_addr :
    (a b : Text) (ts : List StoredTarget)
    → any (has_addr b) ts ≡ false
    → any (has_addr b) (remove_addr a ts) ≡ false
unfolding remove_addr
any-remove_addr a b [] h = refl
any-remove_addr a b (t ∷ ts) h = ground (arith, any-remove_addr a b ts)

remove_addr-Distinct :
    (a : Text) (ts : List StoredTarget) → Distinct ts → Distinct (remove_addr a ts)
unfolding remove_addr
remove_addr-Distinct a [] h = tt
remove_addr-Distinct a (t ∷ ts) h = elim (Bool-cases (has_addr a t)) [
  | inl e ↦ rw e h.1
  | inr e ↦ rw e (any-remove_addr a t.addr ts h.0, remove_addr-Distinct a ts h.1)
]

removed :
    (a : Text) (ts : List StoredTarget) → Distinct ts → any (has_addr a) (remove_addr a ts) ≡ false
unfolding remove_addr
removed a [] h = refl
removed a (t ∷ ts) h = elim (Bool-cases (has_addr a t)) [
  | inl e ↦
      let same : t.addr ≡ a = (text_eq_iff t.addr a).0 e in
      rw e (ap (λ b. any (has_addr b) ts) (sym same) ∙ h.0)
  | inr e ↦ ground (arith, removed a ts h.1)
]

pub append-Distinct :
    (ts : List StoredTarget) (t : StoredTarget)
    → Distinct ts
    → any (has_addr t.addr) ts ≡ false
    → Distinct (ts ++ (t ∷ []))
append-Distinct [] t d h = (refl, tt)
append-Distinct (u ∷ ts) t d h = (
  ground (arith, any-append u.addr ts (t ∷ []), d.0, text_eq_sym u.addr t.addr),
  append-Distinct ts t d.1 (ground arith),
)

dedupe-Distinct : (acc ts : List StoredTarget) → Distinct acc → Distinct (dedupe acc ts)
unfolding dedupe
dedupe-Distinct acc [] d = d
dedupe-Distinct acc (t ∷ ts) d = dedupe-Distinct (remove_addr t.addr acc ++ (t ∷ [])) ts (
    append-Distinct (remove_addr t.addr acc) t (remove_addr-Distinct t.addr acc d)
      (removed t.addr acc d))

pub last-has_addr :
    (ts : List StoredTarget) (t : StoredTarget) → last ts ≡ some t → any (has_addr t.addr) ts ≡ true
last-has_addr [] t h = cc
last-has_addr (u ∷ []) t h = ground (arith, text_eq_refl t.addr)
last-has_addr (u ∷ (v ∷ ts)) t h = ground (arith, last-has_addr (v ∷ ts) t)

pub last-none : (ts : List StoredTarget) → last ts ≡ none → ts ≡ []
last-none [] h = refl
last-none (u ∷ []) h = cc
last-none (u ∷ (v ∷ ts)) h = cc (last-none (v ∷ ts) h)

keep_known-ok :
    (ts : List StoredTarget) (wanted : Option Text) (a : Text)
    → keep_known ts wanted ≡ some a
    → any (has_addr a) ts ≡ true
keep_known-ok ts none a h = cc
keep_known-ok ts (some b) a h = ground arith

-- Whatever a registry file holds, loading or saving it leaves a registry in which no address is
-- saved twice, and whose current target is a saved one, or there is neither a target nor a current
-- one.
pub normalize_registry-IsNormal : (registry : Registry) → IsNormal (normalize_registry registry)
unfolding normalize_registry
normalize_registry-IsNormal registry =
    let targets = dedupe [] registry.targets in
    let wanted = keep_known targets (addr_of (primary_target registry)) in
    (
      dedupe-Distinct [] registry.targets tt,
      elim (Option-cases wanted) [
        | inl e ↦ elim (Option-cases (last targets)) [
          | inl f ↦ inl (last-none targets f, ground arith)
          | inr (t, f) ↦ inr (t.addr, ground arith, last-has_addr targets t f)
        ]
        | inr (a, e) ↦
            inr (a, ground arith, keep_known-ok targets (addr_of (primary_target registry)) a e)
      ],
    )
