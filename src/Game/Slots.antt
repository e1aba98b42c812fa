-- ===== src/Game/Slots.antt =====
-- The search for a free player id: `Game::get_uniq_player_id`, vangers-srv/src/game/game.rs, on the
-- ids that are taken.
use vangers_srv.Base.{
  ◌∙◌, ℕ, zero, suc, ◌+◌, ◌≤◌, ◌<◌, ◌≡◌, refl, true, false, Option, none, some, List, [], ◌∷◌,
  arith, leb, ◌==◌, if◌then◌else◌, contains, All,
}

-- `ids.sort()`
unfoldable pub insert_sorted : ℕ → List ℕ → List ℕ
insert_sorted a [] = a ∷ []
insert_sorted a (x ∷ xs) = let rest = insert_sorted a xs in if leb a x then a ∷ x ∷ xs else x ∷ rest

unfoldable pub sort : List ℕ → List ℕ
unfolding insert_sorted
sort [] = []
sort (x ∷ xs) = insert_sorted x (sort xs)

-- `for i in i..i + rounds`, with the iterator over the sorted ids.
unfoldable pub first_gap : ℕ → ℕ → List ℕ → Option ℕ
first_gap zero i ids = none
first_gap (suc rounds) i [] = some i
first_gap (suc rounds) i (id ∷ ids) =
    let rest = first_gap rounds (i + 1) ids in if id == i then rest else some i

-- The ids are strictly increasing, from `lo` on.
abbrev pub Above : ℕ → List ℕ → Type 0
Above lo [] = Unit
Above lo (x ∷ xs) = (lo ≤ x) × Above (x + 1) xs

-- No id stands twice.
abbrev pub Distinct : List ℕ → Type 0
Distinct [] = Unit
Distinct (x ∷ xs) = (contains xs x ≡ false) × Distinct xs

Above-contains : (lo : ℕ) (xs : List ℕ) (j : ℕ) → Above lo xs → contains xs j ≡ true → lo ≤ j
Above-contains lo [] j h c = cc
Above-contains lo (x ∷ xs) j h c = ground (arith, Above-contains (x + 1) xs j h.1)

Above-weaken : (lo lo' : ℕ) (xs : List ℕ) → lo' ≤ lo → Above lo xs → Above lo' xs
Above-weaken lo lo' [] le h = tt
Above-weaken lo lo' (x ∷ xs) le h = (omega arith, h.1)

contains-insert_sorted :
    (a j : ℕ) (xs : List ℕ)
    → contains (insert_sorted a xs) j ≡ (if a == j then true else contains xs j)
unfolding insert_sorted
contains-insert_sorted a j [] = ground arith
contains-insert_sorted a j (x ∷ xs) = ground (arith, contains-insert_sorted a j xs)

pub contains-sort : (j : ℕ) (xs : List ℕ) → contains (sort xs) j ≡ contains xs j
unfolding sort
contains-sort j [] = refl
contains-sort j (x ∷ xs) = ground (arith, contains-insert_sorted x j (sort xs), contains-sort j xs)

insert_sorted-Above :
    (lo a : ℕ) (xs : List ℕ)
    → lo ≤ a
    → contains xs a ≡ false
    → Above lo xs
    → Above lo (insert_sorted a xs)
unfolding insert_sorted
insert_sorted-Above lo a [] le c h = (le, tt)
insert_sorted-Above lo a (x ∷ xs) le c h =
    ground (arith, insert_sorted-Above (x + 1) a xs, Above-weaken (x + 1) (a + 1) (x ∷ xs))

pub sort-Above : (xs : List ℕ) → All (λ x. 1 ≤ x) xs → Distinct xs → Above 1 (sort xs)
unfolding sort
sort-Above [] h d = tt
sort-Above (x ∷ xs) h d =
    insert_sorted-Above 1 x (sort xs) h.0 (contains-sort x xs ∙ d.0) (sort-Above xs h.1 d.1)

-- What the search answers on strictly increasing ids: the least number from `i` on that is free, or
-- nothing where all of them are taken.
pub first_gap_found :
    (rounds i k : ℕ) (ids : List ℕ)
    → Above i ids
    → first_gap rounds i ids ≡ some k
    → (i ≤ k) × (k < i + rounds) × (contains ids k ≡ false)
unfolding first_gap
first_gap_found zero i k ids h e = cc
first_gap_found (suc rounds) i k [] h e = ground arith
first_gap_found (suc rounds) i k (id ∷ ids) h e =
    ground (arith, first_gap_found rounds (i + 1) k ids, Above-contains (id + 1) ids i h.1)

pub first_gap_least :
    (rounds i k j : ℕ) (ids : List ℕ)
    → Above i ids
    → first_gap rounds i ids ≡ some k
    → i ≤ j
    → j < k
    → contains ids j ≡ true
unfolding first_gap
first_gap_least zero i k j ids h e p q = cc
first_gap_least (suc rounds) i k j [] h e p q = absurd (ground arith)
first_gap_least (suc rounds) i k j (id ∷ ids) h e p q =
    ground (arith, first_gap_least rounds (i + 1) k j ids)

pub first_gap_absent :
    (rounds i j : ℕ) (ids : List ℕ)
    → Above i ids
    → first_gap rounds i ids ≡ none
    → i ≤ j
    → j < i + rounds
    → contains ids j ≡ true
unfolding first_gap
first_gap_absent zero i j ids h e p q = absurd (omega arith)
first_gap_absent (suc rounds) i j [] h e p q = cc
first_gap_absent (suc rounds) i j (id ∷ ids) h e p q =
    ground (arith, first_gap_absent rounds (i + 1) j ids)
