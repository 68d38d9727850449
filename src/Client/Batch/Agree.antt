-- ===== src/Client/Batch/Agree.antt =====
-- Results that agree but for the texts of their errors (crates/rsdb-cli/src/main.rs,
-- device/rsdbd/src/main.rs).
use rsdb.Base.{
  ◌≡◌, refl, arith, Bool, true, false, Option, none, some, if◌then◌else◌, Result, ok, err, map_err,
  ◌>>=◌,
}
use rsdb.Daemon.Error.{Error}
use rsdb.Client.Batch.Pulled.{value}

abbrev pub mapped : {A B : Type 0} → (A → B) → Option A → Option B
mapped f none = none
mapped f (some a) = some (f a)

-- Two results that agree, but for the text of an error and up to `f`.
pub record IsAlike {A B : Type 0} (f : A → B) (r : Result Error A) (q : Result Error B)
    : Type 0 where
  pub same : mapped f (value r) ≡ value q

pub ok-IsAlike : {A B : Type 0} → (f : A → B) (a : A) → IsAlike f (ok a) (ok (f a))
ok-IsAlike f a = record { same = refl }

pub err-IsAlike : {A B : Type 0} → (f : A → B) (d e : Error) → IsAlike f (err d) (err e)
err-IsAlike f d e = record { same = refl }

pub bind-IsAlike :
    {A B C D : Type 0}
    → (f : A → B) (g : C → D) (r : Result Error A) (q : Result Error B) (k : A → Result Error C)
      (l : B → Result Error D)
    → IsAlike f r q
    → ((a : A) → IsAlike g (k a) (l (f a)))
    → IsAlike g (r >>= k) (q >>= l)
bind-IsAlike f g (ok a) (ok b) k l h step =
    let same : f a ≡ b = ground (arith, h.same) in rw (← same) (step a)
bind-IsAlike f g (ok a) (err e) k l h step = let bad : ⊥ = ground (arith, h.same) in absurd bad
bind-IsAlike f g (err d) (ok b) k l h step = let bad : ⊥ = ground (arith, h.same) in absurd bad
bind-IsAlike f g (err d) (err e) k l h step = err-IsAlike g d e

pub if-IsAlike :
    {A B : Type 0}
    → (f : A → B) (b : Bool) (r s : Result Error A) (q t : Result Error B) → IsAlike f r q
    → IsAlike f s t
    → IsAlike f (if b then r else s) (if b then q else t)
if-IsAlike f true r s q t h k = h
if-IsAlike f false r s q t h k = k

pub map_err-IsAlike :
    {E A : Type 0}
    → (d e : E → Error) (r : Result E A) → IsAlike (λ (a : A). a) (map_err d r) (map_err e r)
map_err-IsAlike d e (ok a) = record { same = refl }
map_err-IsAlike d e (err x) = record { same = refl }

pub same-IsAlike : {A : Type 0} → (r : Result Error A) → IsAlike (λ (a : A). a) r r
same-IsAlike (ok a) = record { same = refl }
same-IsAlike (err e) = record { same = refl }
