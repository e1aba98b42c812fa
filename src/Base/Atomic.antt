-- ===== src/Base/Atomic.antt =====
-- Which code leaves the state alone: code that never fails with an error, and code that, when it fails
-- with one, left the state as it was.
use mathlib.Core.Path.{◌≡◌, refl, ◌∙◌}
use mathlib.Core.Logic.{◌≢◌}
use mathlib.Core.Bool.{Bool, true, false}
use mathlib.Core.List.{List, [], ◌∷◌}
use vangers_srv.Base.Outcomes.{Result, ok, err, panic, map_err}
use vangers_srv.Base.Exec.{Exec, lift, inspect, check, continue, convert, for_each, ◌>>=◌, ◌>>◌}

module _ {S E A : Type 0} where
  abbrev pub NeverFails : Exec S E A → Type 0
  NeverFails m = (s : S) (e : E) → (m s).0 ≢ err e

  abbrev pub IsAtomic : Exec S E A → Type 0
  IsAtomic m = (s : S) (e : E) → (m s).0 ≡ err e → (m s).1 ≡ s

module _ {S E A : Type 0} where
  pub NeverFails-IsAtomic : (m : Exec S E A) → NeverFails m → IsAtomic m
  NeverFails-IsAtomic m n s e h = absurd (n s e h)

module _ {S E A B : Type 0} where
  continue-atomic :
      (r : Result E A) (k : A → Exec S E B) (s : S) (e : E)
      → ((a : A) → IsAtomic (k a))
      → (continue r k s).0 ≡ err e
      → (continue r k s).1 ≡ s
  continue-atomic (ok a) k s e at h = at a s e h
  continue-atomic (err e') k s e at h = refl
  continue-atomic panic k s e at h = refl

  continue-failed :
      (r : Result E A) (k : A → Exec S E B) (s : S) (e : E)
      → ((a : A) → NeverFails (k a))
      → (continue r k s).0 ≡ err e
      → (r ≡ err e) × ((continue r k s).1 ≡ s)
  continue-failed (ok a) k s e never h = absurd (never a s e h)
  continue-failed (err e') k s e never h = (cc, refl)
  continue-failed panic k s e never h = cc

  pub lift-then :
      (r : Result E A) (k : A → Exec S E B) → ((a : A) → IsAtomic (k a)) → IsAtomic (lift r >>= k)
  lift-then r k at s e h = continue-atomic r k s e at h

  pub inspect-then :
      (f : S → Result E A) (k : A → Exec S E B)
      → ((a : A) → IsAtomic (k a))
      → IsAtomic (inspect f >>= k)
  inspect-then f k at s e h = continue-atomic (f s) k s e at h

  -- What never fails last.
  pub then-never :
      (m : Exec S E A) (k : A → Exec S E B)
      → IsAtomic m
      → ((a : A) → NeverFails (k a))
      → IsAtomic (m >>= k)
  then-never m k at never s e h =
      let (failed, same) = continue-failed (m s).0 k (m s).1 e never h in same ∙ at s e failed

module _ {S E A : Type 0} where
  pub check-then : (b : Bool) (e : E) (m : Exec S E A) → IsAtomic m → IsAtomic (check b e >> m)
  check-then true e m at s e' h = at s e' h
  check-then false e m at s e' h = refl

module _ {E F A : Type 0} (f : E → F) where
  map_err-err : (r : Result E A) (e : F) → map_err f r ≡ err e → (d : E) × (r ≡ err d)
  map_err-err (ok a) e h = cc
  map_err-err (err d) e h = (d, refl)
  map_err-err panic e h = cc

  pub convert-IsAtomic : {S : Type 0} (m : Exec S E A) → IsAtomic m → IsAtomic (convert f m)
  convert-IsAtomic m at s e h = let (d, failed) = map_err-err (m s).0 e h in at s d failed

module _ {S E A B : Type 0} where
  continue-never :
      (r : Result E A) (k : A → Exec S E B) (s : S) (e : E)
      → r ≢ err e
      → ((a : A) → NeverFails (k a))
      → (continue r k s).0 ≢ err e
  continue-never (ok a) k s e r never h = never a s e h
  continue-never (err d) k s e r never h = r (cc)
  continue-never panic k s e r never h = cc

  pub never-then :
      (m : Exec S E A) (k : A → Exec S E B)
      → NeverFails m
      → ((a : A) → NeverFails (k a))
      → NeverFails (m >>= k)
  never-then m k never nevers s e = continue-never (m s).0 k (m s).1 e (never s e) nevers

pub for_each-NeverFails :
    {S E A : Type 0} (f : A → Exec S E (Unit {0})) (xs : List A)
    → ((a : A) → NeverFails (f a))
    → NeverFails (for_each f xs)
unfolding for_each
for_each-NeverFails f [] h = λ s e k. cc
for_each-NeverFails f (x ∷ xs) h =
    never-then (f x) (λ u. for_each f xs) (h x) (λ u. for_each-NeverFails f xs h)
