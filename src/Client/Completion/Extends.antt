-- ===== src/Client/Completion/Extends.antt =====
-- Completions begin with what was typed (crates/rsdb-cli/src/main.rs).
use mathlib.Core.Path.{subst}
use rsdb.Base.{
  ℕ, true, false, ◌⊎◌, Option, none, some, List, [], ◌∷◌, ◌++◌, All, All-append, ◌≡◌, refl, sym,
  arith, inl, inr, Bool-cases, Option-cases,
}
use rsdb.Base.Texts.{Text, codes, is_empty, text_eq, text_eq_iff}
use rsdb.Proto.Messages.{AgentFsListEntry, FsEntryKind, file, directory, symlink, other}
use rsdb.Paths.Components.{file_name, ends_with_slash}
use rsdb.Daemon.Fs.Order.{bytes_le}
use rsdb.Client.Failures.{starts_with}
use rsdb.Client.Completion.{
  trim_slashes, trim_trailing_slash_preserving_root, rsplit_once_slash, split_or_here,
  split_remote_completion_input, join_remote_completion_candidate, with_slash, candidate_of,
  candidates, insert_text, sort_texts, dedup, completions,
}

-- `c` begins with `p`.
abbrev pub Begins : Text → Text → Type 0
Begins p c = starts_with c p ≡ true

starts_with-append : (c p t : Text) → starts_with c p ≡ true → starts_with (c ++ t) p ≡ true
starts_with-append [] [] [] h = refl
starts_with-append [] [] (d ∷ t) h = refl
starts_with-append (c ∷ cs) [] t h = refl
starts_with-append [] (p ∷ ps) t h = cc
starts_with-append (c ∷ cs) (p ∷ ps) t h = ground (arith, starts_with-append cs ps t)

append-starts_with : (f c p : Text) → starts_with c p ≡ true → starts_with (f ++ c) (f ++ p) ≡ true
append-starts_with [] c p h = h
append-starts_with (a ∷ f) c p h = ground (arith, append-starts_with f c p h)

with_slash-Begins : (kind : FsEntryKind) (p c : Text) → Begins p c → Begins p (with_slash kind c)
with_slash-Begins file p c h = h
with_slash-Begins directory p c h = starts_with-append c p (codes "/") h
with_slash-Begins symlink p c h = h
with_slash-Begins other p c h = h

join-Begins :
    (parent prefix name : Text)
    → Begins prefix name
    → Begins
        (join_remote_completion_candidate parent prefix)
        (join_remote_completion_candidate parent name)
unfolding join_remote_completion_candidate
join-Begins parent prefix name h = elim (Bool-cases (text_eq parent (codes "."))) [
  | inl e ↦ rw e h
  | inr e ↦ elim (Bool-cases (text_eq parent (codes "/"))) [
    | inl f ↦ rw (e, f) (append-starts_with (codes "/") name prefix h)
    | inr f ↦
        rw (e, f)
          (append-starts_with parent (codes "/" ++ name) (codes "/" ++ prefix)
            (append-starts_with (codes "/") name prefix h))
  ]
]

candidate_of-Begins :
    (parent prefix : Text) (entry : AgentFsListEntry) (name : Option Text)
    → All
        (Begins (join_remote_completion_candidate parent prefix))
        (candidate_of parent prefix entry name)
candidate_of-Begins parent prefix entry none = tt
candidate_of-Begins parent prefix entry (some name) = elim (Bool-cases (starts_with name prefix)) [
  | inl e ↦ rw e (with_slash-Begins entry.kind _ _ (join-Begins parent prefix name e), tt)
  | inr e ↦ rw e tt
]

candidates-Begins :
    (parent prefix : Text) (entries : List AgentFsListEntry)
    → All
        (Begins (join_remote_completion_candidate parent prefix))
        (candidates parent prefix entries)
unfolding candidates
candidates-Begins parent prefix [] = tt
candidates-Begins parent prefix (entry ∷ entries) =
    All-append (Begins (join_remote_completion_candidate parent prefix)) _ _
      (candidate_of-Begins parent prefix entry (file_name entry.path))
      (candidates-Begins parent prefix entries)

module _ (P : Text → Type 0) where
  insert_text-All : (p : Text) (ps : List Text) → P p → All P ps → All P (insert_text p ps)
  insert_text-All p [] h hs = (h, tt)
  insert_text-All p (q ∷ ps) h (g, hs) = elim (Bool-cases (bytes_le p q)) [
    | inl e ↦ rw e (h, (g, hs))
    | inr e ↦ rw e (g, insert_text-All p ps h hs)
  ]

  sort_texts-All : (ps : List Text) → All P ps → All P (sort_texts ps)
  unfolding sort_texts
  sort_texts-All [] h = tt
  sort_texts-All (p ∷ ps) (h, hs) = insert_text-All p (sort_texts ps) h (sort_texts-All ps hs)

  dedup-All : (ps : List Text) → All P ps → All P (dedup ps)
  unfolding dedup
  dedup-All [] h = tt
  dedup-All (p ∷ []) h = h
  dedup-All (p ∷ q ∷ ps) (h, hs) = elim (Bool-cases (text_eq p q)) [
    | inl e ↦ rw e (dedup-All (q ∷ ps) hs)
    | inr e ↦ rw e (h, dedup-All (q ∷ ps) hs)
  ]

pub completions-Begins :
    (parent prefix : Text) (entries : List AgentFsListEntry)
    → All
        (Begins (join_remote_completion_candidate parent prefix))
        (completions parent prefix entries)
unfolding completions
completions-Begins parent prefix entries =
    dedup-All (Begins (join_remote_completion_candidate parent prefix)) _ (
      sort_texts-All (Begins (join_remote_completion_candidate parent prefix)) _
        (candidates-Begins parent prefix entries))

rsplit_once_slash-append :
    (t a b : Text) → rsplit_once_slash t ≡ some (a, b) → t ≡ a ++ (codes "/" ++ b)
rsplit_once_slash-append [] a b h = cc
rsplit_once_slash-append (c ∷ cs) a b h = elim (Option-cases (rsplit_once_slash cs)) [
  | inl e ↦ ground (arith, e)
  | inr ((d, x), e) ↦ ground (arith, e, rsplit_once_slash-append cs d x e)
]

-- The part before the last slash is neither `.` nor `/`.
abbrev pub IsPlain : Option (Text × Text) → Type 0
IsPlain none = Unit
IsPlain (some (parent, prefix)) =
    (text_eq parent (codes ".") ≡ false) × (text_eq parent (codes "/") ≡ false)

join-split_or_here :
    (partial : Text) (split : Option (Text × Text))
    → rsplit_once_slash partial ≡ split
    → IsPlain split
    → join_remote_completion_candidate
        (split_or_here partial split).0
        (split_or_here partial split).1
      ≡ partial
unfolding join_remote_completion_candidate
join-split_or_here partial none e plain = refl
join-split_or_here partial (some ([], prefix)) e plain =
    sym (rsplit_once_slash-append partial [] prefix e)
join-split_or_here partial (some (c ∷ parent, prefix)) e (dot, root) =
    rw (dot, root) (sym (rsplit_once_slash-append partial (c ∷ parent) prefix e))

root_is_closed : (t : Text) → text_eq t (codes "/") ≡ true → ends_with_slash t ≡ false → ⊥
unfolding ends_with_slash
root_is_closed t e unended =
    let root : t ≡ codes "/" = (text_eq_iff t (codes "/")).0 e in cc (rw root at unended)

join-split :
    (partial : Text)
    → ends_with_slash partial ≡ false
    → IsPlain (rsplit_once_slash partial)
    → join_remote_completion_candidate
        (split_remote_completion_input partial).0
        (split_remote_completion_input partial).1
      ≡ partial
unfolding split_remote_completion_input
join-split [] unended plain = join-split_or_here [] none refl tt
join-split (c ∷ cs) unended plain = elim (Bool-cases (text_eq (c ∷ cs) (codes "/"))) [
  | inl e ↦ absurd (root_is_closed (c ∷ cs) e unended)
  | inr e ↦ rw (e, unended) (join-split_or_here (c ∷ cs) (rsplit_once_slash (c ∷ cs)) refl plain)
]

-- What does not end with a slash is what is left of it without the slash behind it.
trim_slashes-closed :
    (dir : Text) → ends_with_slash dir ≡ false → trim_slashes (dir ++ codes "/") ≡ dir
unfolding ends_with_slash
trim_slashes-closed [] h = refl
trim_slashes-closed (c ∷ []) h = rw h
trim_slashes-closed (c ∷ d ∷ dir) h = rw (trim_slashes-closed (d ∷ dir) h)

ends_with_slash-closed : (dir : Text) → ends_with_slash (dir ++ codes "/") ≡ true
unfolding ends_with_slash
ends_with_slash-closed [] = refl
ends_with_slash-closed (c ∷ []) = refl
ends_with_slash-closed (c ∷ d ∷ dir) = ends_with_slash-closed (d ∷ dir)

not_root : (c : ℕ) (cs : Text) → text_eq (c ∷ (cs ++ codes "/")) (codes "/") ≡ false
not_root c [] = ground arith
not_root c (d ∷ cs) = ground arith

join-split-closed :
    (dir : Text)
    → is_empty dir ≡ false
    → text_eq dir (codes ".") ≡ false
    → ends_with_slash dir ≡ false
    → join_remote_completion_candidate
        (split_remote_completion_input (dir ++ codes "/")).0
        (split_remote_completion_input (dir ++ codes "/")).1
      ≡ dir ++ codes "/"
unfolding split_remote_completion_input trim_trailing_slash_preserving_root
    join_remote_completion_candidate
join-split-closed [] named dot open_end = cc
join-split-closed (c ∷ cs) named dot open_end = elim (Bool-cases (text_eq (c ∷ cs) (codes "/"))) [
  | inl e ↦ absurd (root_is_closed (c ∷ cs) e open_end)
  | inr e ↦ rw (
    not_root c cs,
    ends_with_slash-closed (c ∷ cs),
    trim_slashes-closed (c ∷ cs) open_end,
    dot,
    e,
  )
]

-- A path that completion leaves as it was typed: one that does not end with a slash and whose part
-- before its last slash is neither `.` nor `/`, or a directory, not `.`, with one slash behind it.
abbrev pub IsKept : Text → Type 0
IsKept partial =
    ((ends_with_slash partial ≡ false) × IsPlain (rsplit_once_slash partial))
    ⊎ ((dir : Text) × (partial ≡ dir ++ codes "/")
        × (is_empty dir ≡ false)
        × (text_eq dir (codes ".") ≡ false)
        × (ends_with_slash dir ≡ false))

join-split-IsKept :
    (partial : Text)
    → IsKept partial
    → join_remote_completion_candidate
        (split_remote_completion_input partial).0
        (split_remote_completion_input partial).1
      ≡ partial
join-split-IsKept partial (inl (unended, plain)) = join-split partial unended plain
join-split-IsKept partial (inr (dir, e, named, dot, open_end)) =
    rw e (join-split-closed dir named dot open_end)

-- Where the path that is completed does not end with a slash, and its part before its last slash is
-- neither `.` nor `/`, or where it is a directory other than `.` with one slash behind it, every
-- completion begins with what was typed, whatever the device lists.
pub completions-typed :
    (partial : Text) (entries : List AgentFsListEntry)
    → IsKept partial
    → All (Begins partial) (
        completions
          (split_remote_completion_input partial).0
          (split_remote_completion_input partial).1
          entries)
completions-typed partial entries kept =
    subst
      (λ p. All (Begins p) (
        completions (split_remote_completion_input partial).0
          (split_remote_completion_input partial).1 entries))
      (join-split-IsKept partial kept)
      (completions-Begins (split_remote_completion_input partial).0
        (split_remote_completion_input partial).1 entries)
