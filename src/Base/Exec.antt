-- ===== src/Base/Exec.antt =====
-- Actions that change a state and may fail. What was done before a failure stays done, so the state
-- comes back beside the error too.
use rsdb.Base.Outcome.{Result, ok, err, map_err}

abbrev pub Exec : Type 0 → Type 0 → Type 0 → Type 0
Exec S E A = S → Result E A × S

module _ {S E A : Type 0} where
  abbrev pub pure : A → Exec S E A
  pure a s = (ok a, s)

  -- `return Err(e)`, `bail!`
  abbrev pub throw : E → Exec S E A
  throw e s = (err e, s)

  -- `?` on a plain result.
  abbrev pub lift : Result E A → Exec S E A
  lift r s = (r, s)

module _ {S E A B : Type 0} where
  abbrev pub continue : Result E A → (A → Exec S E B) → Exec S E B
  continue (ok a) f s = f a s
  continue (err e) f s = (err e, s)

  infixl 5 ◌>>=◌ ◌>>◌
  abbrev pub ◌>>=◌ : Exec S E A → (A → Exec S E B) → Exec S E B
  ◌>>=◌ m f s = continue (m s).0 f (m s).1

  abbrev pub ◌>>◌ : Exec S E A → Exec S E B → Exec S E B
  m >> n = m >>= λ _. n

module _ {S E F A : Type 0} where
  -- The error of `?` after `From` or `with_context`.
  abbrev pub map_error : (E → F) → Exec S E A → Exec S F A
  map_error f m s = (map_err f (m s).0, (m s).1)
