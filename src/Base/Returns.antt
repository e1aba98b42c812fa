-- ===== src/Base/Returns.antt =====
-- What the steps of code did that returned a value.
use mathlib.Core.Path.{◌≡◌, refl, ap, subst}
use mathlib.Core.Bool.{Bool, true, false}
use mathlib.Core.Option.{Option, none, some}
use vangers_srv.Base.Outcomes.{Result, ok, err, panic}
use vangers_srv.Base.Exec.{Exec, continue, require, expect, check, ◌>>=◌}

module _ {S E A B : Type 0} (k : A → Exec S E B) (s t : S) (b : B) where
  -- What the first of two steps was, when both returned.
  pub continue-ok :
      (r : Result E A) → continue r k s ≡ (ok b, t) → (a : A) × (r ≡ ok a) × (k a s ≡ (ok b, t))
  continue-ok (ok a) h = (a, refl, h)
  continue-ok (err d) h = absurd (cc)
  continue-ok panic h = absurd (cc)

  pub expect-ok :
      (o : Option A) → (expect o >>= k) s ≡ (ok b, t) → (a : A) × (o ≡ some a) × (k a s ≡ (ok b, t))
  expect-ok none h = absurd (cc)
  expect-ok (some a) h = (a, refl, h)

  pub require-ok :
      (o : Option A) (e : E)
      → (require o e >>= k) s ≡ (ok b, t)
      → (a : A) × (o ≡ some a) × (k a s ≡ (ok b, t))
  require-ok none e h = absurd (cc)
  require-ok (some a) e h = (a, refl, h)

-- What holds of what was returned, and of the state.
pub moved :
    {S E A : Type 0} (P : A → S → Type 0) (a b : A) (s t : S)
    → ◌≡◌ {A = Result E A × S} (ok a, s) (ok b, t)
    → P a s
    → P b t
moved {S} {E} {A} P a b s t h p =
    let left : ◌≡◌ {A = Result E A} (ok a) (ok b) = ap (λ (z : Result E A × S). z.0) h in
    let values : a ≡ b = cc in
    subst (λ x. P x t) values (subst (P a) (ap (λ (z : Result E A × S). z.1) h) p)

pub check-ok :
    {S E B : Type 0} (k : Unit {0} → Exec S E B) (s t : S) (b : B) (test : Bool) (e : E)
    → (check test e >>= k) s ≡ (ok b, t)
    → (test ≡ true) × (k tt s ≡ (ok b, t))
check-ok k s t b true e h = (refl, h)
check-ok k s t b false e h = absurd (cc)
