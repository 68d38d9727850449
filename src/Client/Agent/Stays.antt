-- ===== src/Client/Agent/Stays.antt =====
-- An operation of a staged push keeps to the phases of Staged: what its result says of the phase,
-- and how operations are put together (crates/rsdb-cli/src/main.rs).
use rsdb.Base.{
  ℕ, zero, suc, ◌+◌, drop, Bool, true, false, some, List, [], ◌∷◌, get_elem?, Result, ok, err, ◌≡◌,
  ap, ◌∙◌, arith, if◌then◌else◌,
}
use rsdb.Base.Exec.{Exec, continue, ◌>>=◌}
use rsdb.Base.Texts.{Text}
use rsdb.Client.Batch.Manifest.{LocalBatchManifest}
use rsdb.Client.Agent.Staged.{
  Action, asked, pushed, IsLogged, is_moved, is_ok, IsRead, Reads, Phase, idle, staged, spoiled,
  over, after_push, after_move, Step, look, push_beside, move_there, remove, Follows, here, next,
  pass_over,
}
use rsdb.Client.Agent.Staged
use rsdb.Client.Agent.Quiet.{IsQuiet}

-- The phases in which a push may end with a failure.
abbrev pub IsEnd : Phase → Type 0
IsEnd (idle k) = Unit
IsEnd over = Unit
IsEnd phase = ⊥

pub drop-eq-cons :
    {A : Type 0} (n : ℕ) (xs : List A) (x : A) (ys : List A)
    → drop n xs ≡ x ∷ ys
    → (get_elem? xs n ≡ some x) × (drop (n + 1) xs ≡ ys)
drop-eq-cons zero [] x ys h = cc
drop-eq-cons zero (a ∷ xs) x ys h = (cc, cc)
drop-eq-cons (suc n) [] x ys h = cc
drop-eq-cons (suc n) (a ∷ xs) x ys h =
    let (e, r) = drop-eq-cons n xs x ys h in
    let shift : suc n + 1 ≡ suc (n + 1) = omega arith in (e, ap (λ k. drop k (a ∷ xs)) shift ∙ r)

-- The rounds of a loop over two lists.
abbrev pub rounds : List Text → List Text → ℕ
rounds [] finals = 0
rounds (source ∷ sources) [] = 0
rounds (source ∷ sources) (final ∷ finals) = suc (rounds sources finals)

module _ {S : Type 0} (log : S → List Action) (manifest : LocalBatchManifest)
    (final_roots : List Text) (if_changed : Bool) (before : List Action) where
  -- After a success `k` roots are done, and nothing is left beside its place.
  abbrev pub Stays : {E A : Type 0} → ℕ → Result E A → S → Type 0
  Stays k (ok a) s = Follows manifest final_roots if_changed before (idle k) (log s)
  Stays k (err e) s =
      (phase : Phase) × IsEnd phase × Follows manifest final_roots if_changed before phase (log s)

  pub Follows-Reads :
      {k : ℕ} {l l' : List Action}
      → Follows manifest final_roots if_changed before (idle k) l
      → Reads l l'
      → Follows manifest final_roots if_changed before (idle k) l'
  Follows-Reads h Staged.Reads.here = h
  Follows-Reads {k} h (Staged.Reads.next q moved r g) = next (Follows-Reads h g) (look k q moved r)

  Stays-idle :
      {E A : Type 0} (k : ℕ) (r : Result E A) (s : S)
      → Follows manifest final_roots if_changed before (idle k) (log s)
      → Stays k r s
  Stays-idle k (ok a) s h = h
  Stays-idle k (err e) s h = (idle k, tt, h)

  pub Stays-quiet :
      {E A : Type 0} (k : ℕ) (m : Exec S E A) (s : S)
      → IsQuiet log m
      → Follows manifest final_roots if_changed before (idle k) (log s)
      → Stays k (m s).0 (m s).1
  Stays-quiet k m s quiet h = Stays-idle k (m s).0 (m s).1 (Follows-Reads h (quiet.at s))

  pub Stays-if :
      {E A : Type 0} (k : ℕ) (b : Bool) (m n : Exec S E A) (s : S)
      → Stays k (m s).0 (m s).1
      → Stays k (n s).0 (n s).1
      → Stays k ((if b then m else n) s).0 ((if b then m else n) s).1
  Stays-if k true m n s hm hn = hm
  Stays-if k false m n s hm hn = hn

  Stays-continue :
      {E A B : Type 0} (k k' : ℕ) (r : Result E A) (f : A → Exec S E B) (s : S)
      → Stays k r s
      → ((a : A) (t : S)
          → Follows manifest final_roots if_changed before (idle k) (log t)
          → Stays k' (f a t).0 (f a t).1)
      → Stays k' (continue r f s).0 (continue r f s).1
  Stays-continue k k' (ok a) f s h g = g a s h
  Stays-continue k k' (err e) f s h g = h

  pub Stays-bind :
      {E A B : Type 0} (k k' : ℕ) (m : Exec S E A) (f : A → Exec S E B) (s : S)
      → Stays k (m s).0 (m s).1
      → ((a : A) (t : S)
          → Follows manifest final_roots if_changed before (idle k) (log t)
          → Stays k' (f a t).0 (f a t).1)
      → Stays k' ((m >>= f) s).0 ((m >>= f) s).1
  Stays-bind k k' m f s h g = Stays-continue k k' (m s).0 f (m s).1 h g
