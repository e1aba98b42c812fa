-- ===== src/Base/Panics.antt =====
-- Where code that panics has panicked.
use mathlib.Core.Path.{◌≡◌, refl, ap}
use mathlib.Core.Bool.{Bool, true, false}
use mathlib.Core.Option.{Option, none, some}
use mathlib.Core.Logic.{◌≢◌, ◌⊎◌, inl, inr}
use vangers_srv.Base.Outcomes.{Result, ok, err, panic, map_err}
use vangers_srv.Base.Exec.{Exec, continue, require, expect, check, ◌>>=◌}

module _ {S E A B : Type 0} (k : A → Exec S E B) (s : S) where
  -- Two steps panic in the first or in the second.
  pub continue-panic :
      (r : Result E A)
      → (continue r k s).0 ≡ panic
      → (r ≡ panic) ⊎ ((a : A) × (r ≡ ok a) × ((k a s).0 ≡ panic))
  continue-panic (ok a) h = inr (a, refl, h)
  continue-panic (err e) h = absurd (cc)
  continue-panic panic h = inl refl

  pub require-panic :
      (o : Option A) (e : E)
      → ((require o e >>= k) s).0 ≡ panic
      → (a : A) × (o ≡ some a) × ((k a s).0 ≡ panic)
  require-panic none e h = absurd (cc)
  require-panic (some a) e h = (a, refl, h)

  pub expect-panic :
      (o : Option A)
      → ((expect o >>= k) s).0 ≡ panic
      → (o ≡ none) ⊎ ((a : A) × (o ≡ some a) × ((k a s).0 ≡ panic))
  expect-panic none h = inl refl
  expect-panic (some a) h = inr (a, refl, h)

pub check-panic :
    {S E B : Type 0} (k : Unit {0} → Exec S E B) (s : S) (test : Bool) (e : E)
    → ((check test e >>= k) s).0 ≡ panic
    → (test ≡ true) × ((k tt s).0 ≡ panic)
check-panic k s true e h = (refl, h)
check-panic k s false e h = absurd (cc)

pub require_never : {S E A : Type 0} (o : Option A) (e : E) (s : S) → (require o e s).0 ≢ panic
require_never none e s h = cc
require_never (some a) e s h = cc

-- A conversion of the error panics where the code does, and keeps a value.
module _ {E F A : Type 0} (f : E → F) where
  pub map_err-panic : (r : Result E A) → map_err f r ≡ panic → r ≡ panic
  map_err-panic (ok a) h = absurd (cc)
  map_err-panic (err e) h = absurd (cc)
  map_err-panic panic h = refl

  pub map_err-ok : (r : Result E A) (a : A) → map_err f r ≡ ok a → r ≡ ok a
  map_err-ok (ok b) a h = let same : b ≡ a = cc in ap (λ x. ok x) same
  map_err-ok (err e) a h = absurd (cc)
  map_err-ok panic a h = absurd (cc)
