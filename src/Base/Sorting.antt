-- ===== src/Base/Sorting.antt =====
-- The stable sort of a list by a Boolean order, as `sort_by` and `sort_by_key` do it.
use mathlib.Core.Path.{◌≡◌}
use mathlib.Core.Bool.{Bool, true, false, not}
use mathlib.Core.List.{List, [], ◌∷◌, ◌++◌, Perm, perm_middle}
use mathlib.Core.List.Perm
use mathlib.Core.Logic.{inl, inr}
use vangers_srv.Base.Tests.{if◌then◌else◌, Bool-cases}
use vangers_srv.Base.Lists.{All, select}

module _ {A : Type 0} (before : A → A → Bool) where
  -- An element goes before the first one that it may stand before.
  unfoldable pub place_by : A → List A → List A
  place_by x [] = x ∷ []
  place_by x (y ∷ ys) = let rest = place_by x ys in if before x y then x ∷ y ∷ ys else y ∷ rest

  unfoldable pub sort_by : List A → List A
  unfolding place_by
  sort_by [] = []
  sort_by (x ∷ xs) = place_by x (sort_by xs)

  place_by-perm : (x : A) (ys : List A) → Perm (place_by x ys) (x ∷ ys)
  unfolding place_by
  place_by-perm x [] = Perm.rfl
  place_by-perm x (y ∷ ys) = elim (Bool-cases (before x y)) [
    | inl e ↦ rw e Perm.rfl
    | inr e ↦ rw e (Perm.trans (Perm.cons y (place_by-perm x ys)) (Perm.swap x y ys))
  ]

  -- Sorting gives the same elements, each as often.
  pub sort_by-perm : (xs : List A) → Perm (sort_by xs) xs
  unfolding sort_by
  sort_by-perm [] = Perm.rfl
  sort_by-perm (x ∷ xs) = Perm.trans (place_by-perm x (sort_by xs)) (Perm.cons x (sort_by-perm xs))

  All-place_by : (P : A → Type 0) (x : A) (ys : List A) → P x → All P ys → All P (place_by x ys)
  unfolding place_by
  All-place_by P x [] p h = (p, tt)
  All-place_by P x (y ∷ ys) p h = elim (Bool-cases (before x y)) [
    | inl e ↦ rw e (p, h)
    | inr e ↦ rw e (h.0, All-place_by P x ys p h.1)
  ]

  pub All-sort_by : (P : A → Type 0) (xs : List A) → All P xs → All P (sort_by xs)
  unfolding sort_by
  All-sort_by P [] h = tt
  All-sort_by P (x ∷ xs) h = All-place_by P x (sort_by xs) h.0 (All-sort_by P xs h.1)

-- Each element stands in the relation to all behind it.
abbrev pub Ordered : {A : Type 0} → (A → A → Type 0) → List A → Type 0
Ordered R [] = Unit
Ordered R (x ∷ xs) = All (R x) xs × Ordered R xs

-- A relation that the Boolean order decides on the elements that have a property.
module _ {A : Type 0} (before : A → A → Bool) (P : A → Type 0) (R : A → A → Type 0)
    (yes : (x y : A) → P x → P y → before x y ≡ true → R x y)
    (no : (x y : A) → P x → P y → before x y ≡ false → R y x)
    (trans : (x y z : A) → R x y → R y z → R x z) where
  All-trans : (x y : A) (ys : List A) → R x y → All (R y) ys → All (R x) ys
  All-trans x y [] r h = tt
  All-trans x y (z ∷ zs) r h = (trans x y z r h.0, All-trans x y zs r h.1)

  place_by-Ordered :
      (x : A) (ys : List A) → P x → All P ys → Ordered R ys → Ordered R (place_by before x ys)
  unfolding place_by
  place_by-Ordered x [] p h o = (tt, tt)
  place_by-Ordered x (y ∷ ys) p h o = elim (Bool-cases (before x y)) [
    | inl e ↦ rw e (let r = yes x y p h.0 e in ((r, All-trans x y ys r o.0), o))
    | inr e ↦
        rw e (All-place_by before (R y) x ys (no x y p h.0 e) o.0, place_by-Ordered x ys p h.1 o.1)
  ]

  -- What is sorted stands in the relation.
  pub sort_by-Ordered : (xs : List A) → All P xs → Ordered R (sort_by before xs)
  unfolding sort_by
  sort_by-Ordered [] h = tt
  sort_by-Ordered (x ∷ xs) h =
      place_by-Ordered x (sort_by before xs) h.0 (All-sort_by before P xs h.1)
        (sort_by-Ordered xs h.1)

-- What a test selects, and behind it what it leaves, are the elements of the list, each as often.
pub select-perm :
    {A : Type 0} (test : A → Bool) (xs : List A)
    → Perm (select test xs ++ select (λ x. not (test x)) xs) xs
select-perm test [] = Perm.rfl
select-perm test (x ∷ xs) = elim (Bool-cases (test x)) [
  | inl e ↦ rw e (Perm.cons x (select-perm test xs))
  | inr e ↦ rw e (
      Perm.trans (perm_middle (select test xs) (select (λ y. not (test y)) xs))
        (Perm.cons x (select-perm test xs)))
]

-- A property of the elements that pass a test.
pub All-select :
    {A : Type 0} (test : A → Bool) (P Q : A → Type 0) (xs : List A)
    → ((x : A) → P x → test x ≡ true → Q x)
    → All P xs
    → All Q (select test xs)
All-select test P Q [] h a = tt
All-select test P Q (x ∷ xs) h a = elim (Bool-cases (test x)) [
  | inl e ↦ rw e (h x a.0 e, All-select test P Q xs h a.1)
  | inr e ↦ rw e (All-select test P Q xs h a.1)
]
