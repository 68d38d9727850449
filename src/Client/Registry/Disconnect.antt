-- ===== src/Client/Registry/Disconnect.antt =====
-- What disconnecting from a target leaves in the registry (crates/rsdb-cli/src/main.rs).
use rsdb.Base.{ℕ, suc, zero, true, false, not, ◌&&◌, none, some, List, [], ◌∷◌, any, get_elem?}
use rsdb.Base.{◌≡◌, refl, sym, ap, ◌∙◌, arith, inl, inr, ◌⊎◌, Bool-cases, Option-cases}
use rsdb.Base.Texts.{text_eq_sym, Text, text_eq, text_eq_iff, text_eq_refl}
use rsdb.Client.Registry.{
  StoredTarget, Registry, has_addr, disconnect, remove_at, current_after, refers_to, last,
}
use rsdb.Client.Registry.Normal.{Distinct, IsNormal, last-has_addr, last-none}

any-get_elem? :
    (ts : List StoredTarget) (index : ℕ) (t : StoredTarget)
    → get_elem? ts index ≡ some t
    → any (has_addr t.addr) ts ≡ true
any-get_elem? [] index t h = cc
any-get_elem? (u ∷ ts) zero t h = ground (arith, text_eq_refl t.addr)
any-get_elem? (u ∷ ts) (suc index) t h = ground (arith, any-get_elem? ts index t h)

any-remove_at :
    (ts : List StoredTarget) (index : ℕ) (t : StoredTarget) (b : Text)
    → Distinct ts
    → get_elem? ts index ≡ some t
    → any (has_addr b) (remove_at index ts) ≡ (any (has_addr b) ts && not (text_eq t.addr b))
unfolding remove_at
any-remove_at [] index t b d h = cc
any-remove_at (u ∷ ts) zero t b d h = elim (Bool-cases (text_eq u.addr b)) [
  | inl e ↦
      let same : u.addr ≡ b = (text_eq_iff u.addr b).0 e in
      ground (arith, ap (λ c. any (has_addr c) ts) same)
  | inr e ↦ ground arith
]
any-remove_at (u ∷ ts) (suc index) t b d h = elim (Bool-cases (text_eq u.addr b)) [
  | inl e ↦ elim (Bool-cases (text_eq t.addr b)) [
    | inl f ↦
        let same : t.addr ≡ u.addr =
          (text_eq_iff t.addr b).0 f ∙ sym ((text_eq_iff u.addr b).0 e) in
        ground (arith, any-get_elem? ts index t h, ap (λ c. any (has_addr c) ts) same)
    | inr f ↦ ground (arith, any-remove_at ts index t b d.1 h)
  ]
  | inr e ↦ ground (arith, any-remove_at ts index t b d.1 h)
]

remove_at-Distinct :
    (ts : List StoredTarget) (index : ℕ) (t : StoredTarget)
    → Distinct ts
    → get_elem? ts index ≡ some t
    → Distinct (remove_at index ts)
unfolding remove_at
remove_at-Distinct [] index t d h = cc
remove_at-Distinct (u ∷ ts) zero t d h = d.1
remove_at-Distinct (u ∷ ts) (suc index) t d h =
    (ground (arith, any-remove_at ts index t u.addr d.1 h), remove_at-Distinct ts index t d.1 h)

-- The current target after a removal is one that is left, or nothing is left.
current_after-known :
    (current : Text) (t : StoredTarget) (ts : List StoredTarget)
    → (text_eq t.addr current ≡ false → any (has_addr current) ts ≡ true)
    → ((ts ≡ []) × (current_after (some current) t ts ≡ none))
      ⊎ ((addr : Text) × (current_after (some current) t ts ≡ some addr)
          × (any (has_addr addr) ts ≡ true))
current_after-known current t [] h = inl (refl, refl)
current_after-known current t (u ∷ ts) h = elim (Bool-cases (refers_to (some current) t)) [
  | inl e ↦ elim (Option-cases (last (u ∷ ts))) [
    | inl f ↦ cc (last-none (u ∷ ts) f)
    | inr (v, f) ↦ inr (v.addr, ground arith, last-has_addr (u ∷ ts) v f)
  ]
  | inr e ↦ inr (current, ground arith, ground (arith, h, text_eq_sym current t.addr))
]

-- Disconnecting from a saved target of a normal registry leaves a normal registry, in which the
-- address of that target is no longer saved and every other address is saved or not as before.
pub disconnect-IsNormal :
    (index : ℕ) (t : StoredTarget) (other : Text) (registry : Registry)
    → IsNormal registry
    → get_elem? registry.targets index ≡ some t
    → (after : Registry) × (disconnect index registry ≡ some after)
      × IsNormal after
      × (any (has_addr other) after.targets
          ≡ (any (has_addr other) registry.targets && not (text_eq t.addr other)))
unfolding disconnect
disconnect-IsNormal index t other registry (d, inl (e, c)) h = cc
disconnect-IsNormal index t other registry (d, inr (current, c, known)) h =
    let ts = remove_at index registry.targets in
    let kept : text_eq t.addr current ≡ false → any (has_addr current) ts ≡ true =
      λ ne. ground (arith, any-remove_at registry.targets index t current d h) in
    (
      record { targets = ts; current_target = current_after registry.current_target t ts },
      ground (arith, h),
      (
        remove_at-Distinct registry.targets index t d h,
        rw c (current_after-known current t ts kept),
      ),
      any-remove_at registry.targets index t other d h,
    )
