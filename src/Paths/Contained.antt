-- ===== src/Paths/Contained.antt =====
-- Where a transfer entry can land.
use mathlib.Core.List.{append-nil, append_assoc}
use rsdb.Base.{Bool, true, false, not, List, [], ◌∷◌, ◌++◌, ◌==◌, ◌≡◌, refl, ap, ◌∙◌, sym, arith}
use rsdb.Base.{All, Bool-cases, inl, inr}
use rsdb.Base.Texts.{Text, is_empty}
use rsdb.Paths.Components.{
  normal, components, segments, later_components, join, cons_head, segment_component,
  all_components, ends_with_slash, slash, is_dot, is_dot_dot, is_absolute, first_component,
}

abbrev pub HasNoSlash : Text → Type 0
HasNoSlash seg = All (λ c. (c == slash) ≡ false) seg

-- A file name: what a normal component holds.
pub record IsName (part : Text) : Type 0 where
  pub plain : HasNoSlash part
  pub filled : is_empty part ≡ false
  pub not_dot : is_dot part ≡ false
  pub not_dot_dot : is_dot_dot part ≡ false

segments_plain : (part : Text) → HasNoSlash part → segments part ≡ part ∷ []
unfolding segments
segments_plain [] h = refl
segments_plain (c ∷ part) (hc, h) = rw (hc, segments_plain part h)

later_components-append :
    (xs ys : List Text) → later_components (xs ++ ys) ≡ later_components xs ++ later_components ys
unfolding later_components
later_components-append [] ys = refl
later_components-append (seg ∷ xs) ys =
    rw (later_components-append xs ys)
      (sym (append_assoc (segment_component seg) (later_components xs) (later_components ys)))

-- There is always a first segment.
pub segments_cons : (p : Text) → (seg : Text) × (segs : List Text) × (segments p ≡ seg ∷ segs)
unfolding segments
segments_cons [] = ([], [], refl)
segments_cons (c ∷ p) = elim (Bool-cases (c == slash)) [
  | inl h ↦ ([], segments p, rw h)
  | inr h ↦ let (seg, segs, e) = segments_cons p in (c ∷ seg, segs, rw (h, e))
]

-- Only the empty path is one empty segment.
segments_nil : (p : Text) → segments p ≡ [] ∷ [] → p ≡ []
unfolding segments
segments_nil [] h = refl
segments_nil (c ∷ p) h = let (seg, segs, e) = segments_cons p in ground (arith, e)

segments-slash :
    (base part : Text)
    → HasNoSlash part
    → segments (base ++ (slash ∷ part)) ≡ segments base ++ (part ∷ [])
unfolding segments
segments-slash [] part h = rw (segments_plain part h)
segments-slash (c ∷ base) part h =
    let (seg, segs, e) = segments_cons base in
    rw (segments-slash base part h, e)
      (elim (Bool-cases (c == slash)) [ inl k ↦ rw (k) | inr k ↦ rw k ])

-- A base that ends with a slash has an empty last segment, which the part takes.
segments_after_slash :
    (base part : Text)
    → HasNoSlash part
    → ends_with_slash base ≡ true
    → (f : Text) × (fs : List Text) × (segments base ≡ f ∷ (fs ++ ([] ∷ [])))
      × (segments (base ++ part) ≡ f ∷ (fs ++ (part ∷ [])))
unfolding segments ends_with_slash
segments_after_slash [] part h e = cc
segments_after_slash (c ∷ []) part h e = ([], [], rw e, rw (e, segments_plain part h))
segments_after_slash (c ∷ d ∷ base) part h e =
    let (f, fs, p, q) = segments_after_slash (d ∷ base) part h e in
    elim (Bool-cases (c == slash)) [
      | inl k ↦ ([], f ∷ fs, rw (k) (ap (λ t. [] ∷ t) p), rw k (ap (λ t. [] ∷ t) q))
      | inr k ↦ (c ∷ f, fs, rw k (ap (cons_head c) p), rw k (ap (cons_head c) q))
    ]

segment_component_name : (part : Text) → IsName part → segment_component part ≡ normal part ∷ []
segment_component_name part n = rw (n.filled, n.not_dot, n.not_dot_dot)

is_empty-snoc : (xs : List Text) (x : Text) → is_empty (xs ++ (x ∷ [])) ≡ false
is_empty-snoc [] x = refl
is_empty-snoc (y ∷ xs) x = refl

later_components-snoc :
    (xs : List Text) (part : Text)
    → IsName part
    → later_components (xs ++ (part ∷ [])) ≡ later_components xs ++ (normal part ∷ [])
later_components-snoc xs part n =
    rw (later_components-append xs (part ∷ []))
      (unfold later_components in rw (segment_component_name part n))

all_components-snoc :
    (f : Text) (fs : List Text) (part : Text)
    → IsName part
    → all_components (f ∷ (fs ++ (part ∷ [])))
      ≡ first_component f true ++ (later_components fs ++ (normal part ∷ []))
all_components-snoc f fs part n = rw (is_empty-snoc fs part, later_components-snoc fs part n)

name-not_absolute : (part : Text) → IsName part → is_absolute part ≡ false
name-not_absolute [] n = refl
name-not_absolute (c ∷ part) n = n.plain.0

-- The three ways to join a name.
join_slashed :
    (base part : Text)
    → IsName part
    → ends_with_slash base ≡ true
    → components (base ++ part) ≡ components base ++ (normal part ∷ [])
unfolding components
join_slashed base part n h =
    let (f, fs, p, q) = segments_after_slash base part n.plain h in
    rw
      (
        p,
        q,
        all_components-snoc f fs part n,
        is_empty-snoc fs [],
        later_components-append fs ([] ∷ []),
      )
      (unfold later_components in simp (append-nil, append_assoc))

join_rooted :
    (f : Text) (fs : List Text) (rooted : Bool)
    → (f ∷ fs ≡ [] ∷ [] → ⊥)
    → first_component f true ≡ first_component f (not (is_empty fs))
join_rooted [] [] rooted h = absurd (h refl)
join_rooted [] (g ∷ fs) rooted h = refl
join_rooted (c ∷ f) fs rooted h = refl

join_plain :
    (base part : Text)
    → IsName part
    → is_empty base ≡ false
    → components (base ++ (slash ∷ part)) ≡ components base ++ (normal part ∷ [])
unfolding components
join_plain base part n h =
    let (f, fs, p) = segments_cons base in
    rw
      (
        segments-slash base part n.plain,
        p,
        all_components-snoc f fs part n,
        join_rooted f fs true (λ e. cc (segments_nil base (p ∙ e))),
      )
      (simp (append_assoc))

-- Joining a name to any base adds that name as the last component.
pub components-join :
    (base part : Text)
    → IsName part
    → components (join base part) ≡ components base ++ (normal part ∷ [])
unfolding join
components-join [] part n = rw (name-not_absolute part n) (
    unfold components in
    unfold later_components in rw (segments_plain part n.plain, n.filled, n.not_dot, n.not_dot_dot))
components-join (c ∷ base) part n = elim (Bool-cases (ends_with_slash (c ∷ base))) [
  | inl h ↦ rw (name-not_absolute part n, h) (join_slashed (c ∷ base) part n h)
  | inr h ↦ rw (name-not_absolute part n, h) (join_plain (c ∷ base) part n refl)
]
