-- ===== src/Base/Exec.antt =====
-- Code that reads and writes a state and may stop early. What was written before an error or a panic
-- stays written, so the state comes back beside every outcome.
use mathlib.Core.Bool.{Bool, true, false}
use mathlib.Core.Option.{Option, none, some}
use mathlib.Core.List.{List, [], ◌∷◌}
use vangers_srv.Base.Outcomes.{Result, ok, err, panic, map_err}

abbrev pub Exec : Type 0 → Type 0 → Type 0 → Type 0
Exec S E A = S → Result E A × S

module _ {S E A : Type 0} where
  abbrev pub pure : A → Exec S E A
  pure a s = (ok a, s)

  abbrev pub lift : Result E A → Exec S E A
  lift r s = (r, s)

  abbrev pub raise : E → Exec S E A
  raise e s = (err e, s)

  abbrev pub require : Option A → E → Exec S E A
  require none e s = (err e, s)
  require (some a) e s = (ok a, s)

  -- `Option::unwrap`
  abbrev pub expect : Option A → Exec S E A
  expect none s = (panic, s)
  expect (some a) s = (ok a, s)

  -- Code that only reads the state.
  abbrev pub inspect : (S → Result E A) → Exec S E A
  inspect f s = (f s, s)

  abbrev pub gets : (S → A) → Exec S E A
  gets f s = (ok (f s), s)

module _ {S E : Type 0} where
  abbrev pub update : (S → S) → Exec S E (Unit {0})
  update f s = (ok tt, f s)

  -- Go on only if the test holds.
  abbrev pub check : Bool → E → Exec S E (Unit {0})
  check true e s = (ok tt, s)
  check false e s = (err e, s)

module _ {S E A B : Type 0} where
  abbrev pub continue : Result E A → (A → Exec S E B) → Exec S E B
  continue (ok a) f s = f a s
  continue (err e) f s = (err e, s)
  continue panic f s = (panic, s)

module _ {S E A B : Type 0} where
  infixl 5 ◌>>=◌ ◌>>◌
  abbrev pub ◌>>=◌ : Exec S E A → (A → Exec S E B) → Exec S E B
  ◌>>=◌ m f s = let (r, s') = m s in continue r f s'

  abbrev pub ◌>>◌ : Exec S E A → Exec S E B → Exec S E B
  m >> n = m >>= λ _. n

-- `result.map_err(f)`, and the conversion of an error by `?`.
abbrev pub convert : {S E F A : Type 0} → (E → F) → Exec S E A → Exec S F A
convert f m s = let (r, s') = m s in (map_err f r, s')

-- `for x in xs { f(x) }`
unfoldable pub for_each :
    {S E A : Type 0} → (A → Exec S E (Unit {0})) → List A → Exec S E (Unit {0})
for_each f [] = pure tt
for_each f (x ∷ xs) = f x >>= λ u. for_each f xs
