-- ===== src/Base/Keeps.antt =====
-- Code that keeps a property of the state, whatever its outcome.
use mathlib.Core.Path.{◌≡◌, refl}
use mathlib.Core.Bool.{Bool, true, false}
use mathlib.Core.Option.{Option, none, some}
use mathlib.Core.List.{List, [], ◌∷◌}
use vangers_srv.Base.Outcomes.{Result, ok, err, panic}
use vangers_srv.Base.Exec
use vangers_srv.Base.Exec.{
  Exec, lift, require, expect, check, continue, convert, for_each, ◌>>=◌, ◌>>◌,
}

module _ {S : Type 0} (P : S → Type 0) where
  abbrev pub Keeps : {E A : Type 0} → Exec S E A → Type 0
  Keeps m = (s : S) → P s → P (m s).1

  continue-Keeps :
      {E A B : Type 0} (r : Result E A) (k : A → Exec S E B) (s : S)
      → ((a : A) → Keeps (k a))
      → P s
      → P (continue r k s).1
  continue-Keeps (ok a) k s keeps h = keeps a s h
  continue-Keeps (err e) k s keeps h = h
  continue-Keeps panic k s keeps h = h

  pub then-Keeps :
      {E A B : Type 0} (m : Exec S E A) (k : A → Exec S E B)
      → Keeps m
      → ((a : A) → Keeps (k a))
      → Keeps (m >>= k)
  then-Keeps m k keeps keeps' s h = continue-Keeps (m s).0 k (m s).1 keeps' (keeps s h)

  pub lift-Keeps : {E A : Type 0} (r : Result E A) → Keeps (lift {S = S} r)
  lift-Keeps r s h = h

  pub convert-Keeps : {E F A : Type 0} (f : E → F) (m : Exec S E A) → Keeps m → Keeps (convert f m)
  convert-Keeps f m keeps s h = keeps s h

  pub check-Keeps : {E : Type 0} (b : Bool) (e : E) → Keeps (check {S = S} b e)
  check-Keeps true e s h = h
  check-Keeps false e s h = h

  pub for_each-Keeps :
      {E A : Type 0} (f : A → Exec S E (Unit {0})) (xs : List A)
      → ((a : A) → Keeps (f a))
      → Keeps (for_each f xs)
  unfolding for_each
  for_each-Keeps f [] keeps = λ s h. h
  for_each-Keeps f (x ∷ xs) keeps =
      then-Keeps (f x) (λ u. for_each f xs) (keeps x) (λ u. for_each-Keeps f xs keeps)

  -- The same at one state, with the value that was read.
  pub lift-at :
      {E A B : Type 0} (r : Result E A) (k : A → Exec S E B) (s : S)
      → P s
      → ((a : A) → r ≡ ok a → P (k a s).1)
      → P ((lift r >>= k) s).1
  lift-at (ok a) k s h keeps = keeps a refl
  lift-at (err e) k s h keeps = h
  lift-at panic k s h keeps = h

  pub require-at :
      {E A B : Type 0} (o : Option A) (e : E) (k : A → Exec S E B) (s : S)
      → P s
      → ((a : A) → o ≡ some a → P (k a s).1)
      → P ((require o e >>= k) s).1
  require-at none e k s h keeps = h
  require-at (some a) e k s h keeps = keeps a refl

  pub expect-at :
      {E A B : Type 0} (o : Option A) (k : A → Exec S E B) (s : S)
      → P s
      → ((a : A) → o ≡ some a → P (k a s).1)
      → P ((expect o >>= k) s).1
  expect-at none k s h keeps = h
  expect-at (some a) k s h keeps = keeps a refl

  pub require-Keeps : {E A : Type 0} (o : Option A) (e : E) → Keeps (require {S = S} o e)
  require-Keeps none e s h = h
  require-Keeps (some a) e s h = h

  -- Code that only reads.
  pub gets-then :
      {E A B : Type 0} (f : S → A) (k : A → Exec S E B)
      → ((a : A) → Keeps (k a))
      → Keeps (Exec.gets f >>= k)
  gets-then f k keeps s h = keeps (f s) s h

  pub lift-then-Keeps :
      {E A B : Type 0} (r : Result E A) (k : A → Exec S E B)
      → ((a : A) → Keeps (k a))
      → Keeps (lift r >>= k)
  lift-then-Keeps r k keeps = then-Keeps (lift r) k (lift-Keeps r) keeps

  pub require-then :
      {E A B : Type 0} (o : Option A) (e : E) (k : A → Exec S E B)
      → ((a : A) → Keeps (k a))
      → Keeps (require o e >>= k)
  require-then o e k keeps = then-Keeps (require o e) k (require-Keeps o e) keeps

  pub check-then-Keeps :
      {E B : Type 0} (b : Bool) (e : E) (m : Exec S E B) → Keeps m → Keeps (check b e >> m)
  check-then-Keeps b e m keeps = then-Keeps (check b e) (λ u. m) (check-Keeps b e) (λ u. keeps)

  pub check-at :
      {E B : Type 0} (b : Bool) (e : E) (k : Unit {0} → Exec S E B) (s : S)
      → P s
      → ((u : Unit {0}) → P (k u s).1)
      → P ((check b e >>= k) s).1
  check-at true e k s h keeps = keeps tt
  check-at false e k s h keeps = h

  pub expect-then :
      {E A B : Type 0} (o : Option A) (k : A → Exec S E B)
      → ((a : A) → Keeps (k a))
      → Keeps (expect o >>= k)
  expect-then o k keeps s h = expect-at o k s h (λ a e. keeps a s h)
