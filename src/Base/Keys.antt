-- ===== src/Base/Keys.antt =====
-- A map has a key once, and a write keeps that.
use Prim.Native.Nat.{ℕ}
use mathlib.Core.Path.{◌≡◌, refl, ◌∙◌}
use mathlib.Core.Bool.{Bool, false, not}
use mathlib.Core.Option.{Option, none, some}
use mathlib.Core.List.{[], ◌∷◌}
use native.Mathlib.Omega.{arith}
use vangers_srv.Base.Tests.{◌==◌}
use vangers_srv.Base.Lists.{select}
use vangers_srv.Base.Maps.{
  Map, lookup, contains_key, retain_keys, remove, insert, modify, lookup-retain_keys, lookup-modify,
}

module _ {ℓ} {V : Type ℓ} where
  abbrev pub IsMap : Map V → Type ℓ
  IsMap [] = Unit {ℓ}
  IsMap ((k, v) ∷ m) = (lookup k m ≡ none) × IsMap m

  pub retain_keys-IsMap : (p : ℕ → Bool) (m : Map V) → IsMap m → IsMap (retain_keys p m)
  unfolding retain_keys
  retain_keys-IsMap p [] h = tt
  retain_keys-IsMap p ((k, v) ∷ m) h =
      ground (arith, lookup-retain_keys p k m, retain_keys-IsMap p m h.1, h.0)

  pub insert-IsMap : (k : ℕ) (v : V) (m : Map V) → IsMap m → IsMap (insert k v m)
  unfolding insert remove
  insert-IsMap k v m h = (
    lookup-retain_keys (λ j. not (j == k)) k m ∙ ground arith,
    retain_keys-IsMap (λ j. not (j == k)) m h,
  )

  pub modify-IsMap : (k : ℕ) (f : V → V) (m : Map V) → IsMap m → IsMap (modify k f m)
  unfolding modify
  modify-IsMap k f [] h = tt
  modify-IsMap k f ((j, v) ∷ m) h =
      ground (arith, lookup-modify k j f m, modify-IsMap k f m h.1, h.0)

  -- Whether an entry passes a test.
  abbrev pub passes : (V → Bool) → Option V → Bool
  passes p none = false
  passes p (some v) = p v

  pub contains_key-select :
      (p : V → Bool) (k : ℕ) (m : Map V)
      → IsMap m
      → contains_key k (select (λ e. p e.1) m) ≡ passes p (lookup k m)
  unfolding contains_key lookup
  contains_key-select p k [] h = refl
  contains_key-select p k ((j, v) ∷ m) h = ground (arith, contains_key-select p k m h.1, h.0)
