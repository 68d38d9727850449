-- ===== src/Paths/Landing.antt =====
-- Where a transfer entry can land: under its base, and nowhere else
-- (`join_transfer_relative_path` of device/rsdbd/src/main.rs).
use mathlib.Core.List.{append-nil, append_assoc}
use rsdb.Base.{
  Bool, true, false, not, ◌||◌, List, [], ◌∷◌, ◌++◌, ◌==◌, ◌≡◌, refl, ◌∙◌, sym, arith, ok, err,
}
use rsdb.Base.{All, all, Bool-cases, inl, inr, All-append}
use rsdb.Base.Texts.{Text, is_empty}
use rsdb.Paths.Components.{
  Component, normal, components, segments, later_components, join, segment_component, slash, is_dot,
  is_dot_dot, first_component,
}
use rsdb.Paths.Transfer.{join_transfer_relative_path, push_components, invalid_transfer_path}
use rsdb.Paths.Contained.{IsName, HasNoSlash, components-join, segments_cons}

-- A component is a file name, or one of the special ones.
abbrev pub is_normal : Component → Bool
is_normal (normal part) = true
is_normal _ = false

abbrev IsProper : Component → Type 0
IsProper (normal part) = IsName part
IsProper _ = Unit

segments-HasNoSlash : (p : Text) → All HasNoSlash (segments p)
unfolding segments
segments-HasNoSlash [] = (tt, tt)
segments-HasNoSlash (c ∷ p) =
    let (seg, segs, e) = segments_cons p in
    let ih : HasNoSlash seg × All HasNoSlash segs = rw e at (segments-HasNoSlash p) in
    elim (Bool-cases (c == slash)) [
      | inl h ↦ rw h (tt, segments-HasNoSlash p)
      | inr h ↦ rw (h, e) ((h, ih.0), ih.1)
    ]

segment_component-IsProper : (seg : Text) → HasNoSlash seg → All IsProper (segment_component seg)
segment_component-IsProper seg h = elim (Bool-cases (is_empty seg || is_dot seg)) [
  | inl e ↦ rw e tt
  | inr e ↦ elim (Bool-cases (is_dot_dot seg)) [
    | inl d ↦ rw (e, d) (tt, tt)
    | inr d ↦
        rw (e, d)
          (record { plain = h; filled = ground arith; not_dot = ground arith; not_dot_dot = d }, tt)
  ]
]

later_components-IsProper :
    (segs : List Text) → All HasNoSlash segs → All IsProper (later_components segs)
unfolding later_components
later_components-IsProper [] h = tt
later_components-IsProper (seg ∷ segs) (h, hs) =
    All-append IsProper (segment_component seg) (later_components segs)
      (segment_component-IsProper seg h) (later_components-IsProper segs hs)

first_component-IsProper :
    (seg : Text) (rooted : Bool) → HasNoSlash seg → All IsProper (first_component seg rooted)
first_component-IsProper [] true h = (tt, tt)
first_component-IsProper [] false h = tt
first_component-IsProper (c ∷ seg) rooted h = elim (Bool-cases (is_dot (c ∷ seg))) [
  | inl e ↦ rw e (tt, tt)
  | inr e ↦ rw e (rw e at (segment_component-IsProper (c ∷ seg) h))
]

-- Every normal component of a path is a file name: not empty, no slash, not `.` and not `..`.
components-IsProper : (p : Text) → All IsProper (components p)
unfolding components
components-IsProper p =
    let (seg, segs, e) = segments_cons p in
    let h : HasNoSlash seg × All HasNoSlash segs = rw e at (segments-HasNoSlash p) in
    rw e (
      All-append IsProper (first_component seg (not (is_empty segs))) (later_components segs)
        (first_component-IsProper seg _ h.0) (later_components-IsProper segs h.1))

push_components-contained :
    (path base : Text) (parts : List Component)
    → All IsProper parts
    → all is_normal parts ≡ true
    → (p : Text) × (push_components path base parts ≡ ok p)
      × (components p ≡ components base ++ parts)
unfolding push_components
push_components-contained path base [] h n = (base, refl, sym (append-nil (components base)))
push_components-contained path base (normal part ∷ parts) (hp, h) n =
    let (p, e, c) = push_components-contained path (join base part) parts h n in
    (p, e, c ∙ rw (components-join base part hp, append_assoc))
push_components-contained path base (_ ∷ parts) h n = cc

push_components-refused :
    (path base : Text) (parts : List Component)
    → all is_normal parts ≡ false
    → push_components path base parts ≡ err (invalid_transfer_path path)
unfolding push_components
push_components-refused path base [] n = cc
push_components-refused path base (normal part ∷ parts) n =
    push_components-refused path (join base part) parts n
push_components-refused path base (_ ∷ parts) n = refl

-- A relative path of file names only lands below the base: the components of the result are those
-- of the base followed by those of the relative path.
pub join_transfer_relative_path-contained :
    (base path : Text)
    → all is_normal (components path) ≡ true
    → (p : Text) × (join_transfer_relative_path base path ≡ ok p)
      × (components p ≡ components base ++ components path)
unfolding join_transfer_relative_path
join_transfer_relative_path-contained base [] n =
    (base, refl, unfold components in sym (append-nil (components base)))
join_transfer_relative_path-contained base (c ∷ path) n =
    push_components-contained (c ∷ path) base (components (c ∷ path))
      (components-IsProper (c ∷ path)) n

-- A relative path with a root, a leading `.` or a `..` anywhere is refused.
pub join_transfer_relative_path-refused :
    (base path : Text)
    → all is_normal (components path) ≡ false
    → join_transfer_relative_path base path ≡ err (invalid_transfer_path path)
unfolding join_transfer_relative_path
join_transfer_relative_path-refused base [] n = unfold components in cc
join_transfer_relative_path-refused base (c ∷ path) n =
    push_components-refused (c ∷ path) base (components (c ∷ path)) n
