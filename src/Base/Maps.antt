-- ===== src/Base/Maps.antt =====
-- Rust's `HashMap` with number keys, as an association list: a key stands once, and the order of the
-- entries, which Rust leaves open, is the one of the list.
use Prim.Native.Nat.{ℕ}
use mathlib.Core.Path.{◌≡◌, refl}
use mathlib.Core.Bool.{Bool, true, false, not}
use mathlib.Core.Option.{Option, none, some}
use mathlib.Core.List.{List, [], ◌∷◌}
use native.Mathlib.Omega.{arith}
use vangers_srv.Base.Tests.{◌==◌, if◌then◌else◌}

abbrev pub Map {ℓ} : Type ℓ → Type ℓ
Map V = List (ℕ × V)

module _ {ℓ} {V : Type ℓ} where
  -- `get`
  unfoldable pub lookup : ℕ → Map V → Option V
  lookup k [] = none
  lookup k ((j, v) ∷ m) = let rest = lookup k m in if j == k then some v else rest

  unfoldable pub contains_key : ℕ → Map V → Bool
  contains_key k [] = false
  contains_key k ((j, v) ∷ m) = let rest = contains_key k m in if j == k then true else rest

  -- `retain` with a test on the key
  unfoldable pub retain_keys : (ℕ → Bool) → Map V → Map V
  retain_keys p [] = []
  retain_keys p ((j, v) ∷ m) = let rest = retain_keys p m in if p j then (j, v) ∷ rest else rest

  unfoldable pub remove : ℕ → Map V → Map V
  remove k m = retain_keys (λ j. not (j == k)) m

  unfoldable pub insert : ℕ → V → Map V → Map V
  unfolding remove
  insert k v m = (k, v) ∷ remove k m

  -- `get_mut(&k)` and a write through it: every entry of the key, and a key stands once.
  unfoldable pub modify : ℕ → (V → V) → Map V → Map V
  modify k f [] = []
  modify k f ((j, v) ∷ m) = (if j == k then (j, f v) else (j, v)) ∷ modify k f m

  pub lookup-retain_keys :
      (p : ℕ → Bool) (k : ℕ) (m : Map V)
      → lookup k (retain_keys p m) ≡ (if p k then lookup k m else none)
  unfolding lookup retain_keys
  lookup-retain_keys p k [] = ground arith
  lookup-retain_keys p k ((j, v) ∷ m) = ground (arith, lookup-retain_keys p k m)

  pub lookup-remove :
      (k j : ℕ) (m : Map V) → lookup j (remove k m) ≡ (if j == k then none else lookup j m)
  unfolding remove
  lookup-remove k j m = ground (arith, lookup-retain_keys (λ i. not (i == k)) j m)

  pub lookup-insert :
      (k j : ℕ) (v : V) (m : Map V)
      → lookup j (insert k v m) ≡ (if k == j then some v else lookup j m)
  unfolding insert lookup
  lookup-insert k j v m = ground (arith, lookup-remove k j m)

  abbrev pub Option_map : (V → V) → Option V → Option V
  Option_map f none = none
  Option_map f (some v) = some (f v)

  pub lookup-modify :
      (k j : ℕ) (f : V → V) (m : Map V)
      → lookup j (modify k f m) ≡ (if k == j then Option_map f (lookup j m) else lookup j m)
  unfolding lookup modify
  lookup-modify k j f [] = ground arith
  lookup-modify k j f ((i, v) ∷ m) = ground (arith, lookup-modify k j f m)

  abbrev pub is_some : Option V → Bool
  is_some none = false
  is_some (some v) = true

  pub contains_key-lookup : (k : ℕ) (m : Map V) → contains_key k m ≡ is_some (lookup k m)
  unfolding contains_key lookup
  contains_key-lookup k [] = refl
  contains_key-lookup k ((j, v) ∷ m) = ground (arith, contains_key-lookup k m)

pub ruleset map_laws = (lookup-retain_keys, lookup-remove, lookup-insert, lookup-modify)
