-- ===== src/Base/Outcomes.antt =====
-- Rust's `Result`, with a third outcome for a panic (an index out of range, an `unwrap` of nothing).
use mathlib.Core.Path.{◌≡◌, refl}
use mathlib.Core.Logic.{◌⊎◌, inl, inr}
use mathlib.Core.Bool.{Bool, true, false}
use mathlib.Core.Option.{Option, none, some}

pub data Result {ℓ} (E A : Type ℓ) : Type ℓ where
  ok : A → Result E A
  err : E → Result E A
  panic : Result E A

module _ {ℓ} {E A B : Type ℓ} where
  infixl 5 ◌>>=◌ ◌>>◌
  abbrev pub ◌>>=◌ : Result E A → (A → Result E B) → Result E B
  ok a >>= f = f a
  err e >>= f = err e
  panic >>= f = panic

  abbrev pub ◌>>◌ : Result E A → Result E B → Result E B
  m >> k = m >>= λ _. k

module _ {ℓ} {E A : Type ℓ} where
  -- `Option::ok_or`
  abbrev pub ok_or : Option A → E → Result E A
  ok_or none e = err e
  ok_or (some a) e = ok a

  -- `Option::unwrap`
  abbrev pub unwrap : Option A → Result E A
  unwrap none = panic
  unwrap (some a) = ok a

-- `Result::map_err`, and the conversion that `?` makes.
abbrev pub map_err {ℓ} : {A E F : Type ℓ} → (E → F) → Result E A → Result F A
map_err f (ok a) = ok a
map_err f (err e) = err (f e)
map_err f panic = panic

abbrev pub guard : {E : Type 0} → Bool → E → Result E (Unit {0})
guard true e = ok tt
guard false e = err e

-- The outcome is a value: no error and no panic.
abbrev pub IsOk {ℓ} : {E A : Type ℓ} → Result E A → Type 0
IsOk (ok a) = Unit
IsOk (err e) = ⊥
IsOk panic = ⊥

pub IsOk-bind {ℓ} :
    {E A B : Type ℓ} (m : Result E A) (f : A → Result E B)
    → IsOk m
    → ((a : A) → IsOk (f a))
    → IsOk (m >>= f)
IsOk-bind (ok a) f h k = k a
IsOk-bind (err e) f h k = absurd h
IsOk-bind panic f h k = absurd h

-- To split on an outcome and keep the equation: a value, or one of the two others.
pub Result-cases {ℓ} :
    {E A : Type ℓ} (r : Result E A)
    → ((a : A) × (r ≡ ok a)) ⊎ (((e : E) × (r ≡ err e)) ⊎ (r ≡ panic))
Result-cases (ok a) = inl (a, refl)
Result-cases (err e) = inr (inl (e, refl))
Result-cases panic = inr (inr refl)
