-- ===== src/Server/Callback/TopListQuery/Best.antt =====
-- Who is on the list of the best (callback/top_list_query.rs).
use mathlib.Core.List.{Perm}
use vangers_srv.Base.{
  ℕ, zero, suc, ◌≤◌, ◌<◌, ◌≡◌, refl, sym, subst, true, false, List, [], ◌∷◌, ◌++◌, arith, All, Map,
  length, take, drop, take-append-drop,
}
use vangers_srv.Base.Sorting.{Ordered, sort_by, sort_by-perm, sort_by-Ordered}
use vangers_srv.Game.{Game}
use vangers_srv.Server.Callback.TopListQuery.{
  TopEntry, entries, comes_before, sort_entries, top_entries,
}
use vangers_srv.Server.Callback.TopListQuery.Ratings.{is_nan, rank, compare_ratings}

-- The rating of an entry is a number.
abbrev pub IsRated : TopEntry → Type 0
IsRated e = is_nan e.rating ≡ false

abbrev pub AtLeast : TopEntry → TopEntry → Type 0
AtLeast e x = rank x.rating ≤ rank e.rating

comes_before-AtLeast :
    (e x : TopEntry) → IsRated e → IsRated x → comes_before e x ≡ true → AtLeast e x
unfolding comes_before compare_ratings
comes_before-AtLeast e x p q h = grind arith

comes_before-AtLeast_other :
    (e x : TopEntry) → IsRated e → IsRated x → comes_before e x ≡ false → AtLeast x e
unfolding comes_before compare_ratings
comes_before-AtLeast_other e x p q h = grind arith

AtLeast-trans : (e x y : TopEntry) → AtLeast e x → AtLeast x y → AtLeast e y
AtLeast-trans e x y h k = omega arith

-- The best entries and the others.
pub record Best (limit : ℕ) (best all : List TopEntry) : Type 0 where
  pub others : List TopEntry
  pub everyone : Perm (best ++ others) all
  pub ranked : Ordered AtLeast (best ++ others)
  pub bounded : length best ≤ limit
  pub full : length best < limit → others ≡ []

length-take_le : (n : ℕ) (xs : List TopEntry) → length (take n xs) ≤ n
length-take_le zero xs = omega arith
length-take_le (suc n) [] = omega arith
length-take_le (suc n) (x ∷ xs) = omega (arith, length-take_le n xs)

drop-nil : (n : ℕ) (xs : List TopEntry) → length (take n xs) < n → drop n xs ≡ []
drop-nil zero xs h = absurd (omega arith)
drop-nil (suc n) [] h = refl
drop-nil (suc n) (x ∷ xs) h = drop-nil n xs (omega arith)

-- When the ratings of a mode's players are numbers: its list has at most ten entries, which come by
-- their rating, the highest first, every player that is not on it has a rating that is not higher than
-- any on it, and somebody is left out only when there are ten.
pub top_entries-Best :
    (mp_game : ℕ) (games : Map Game)
    → All IsRated (entries mp_game games)
    → Best 10 (top_entries mp_game games) (entries mp_game games)
unfolding top_entries sort_entries
top_entries-Best mp_game games h =
    let sorted = sort_by comes_before (entries mp_game games) in
    let whole = sym (take-append-drop 10 sorted) in
    record {
      others = drop 10 sorted;
      everyone =
          subst (λ es. Perm es (entries mp_game games)) whole
            (sort_by-perm comes_before (entries mp_game games));
      ranked = subst (Ordered AtLeast) whole (
          sort_by-Ordered comes_before IsRated AtLeast comes_before-AtLeast
            comes_before-AtLeast_other AtLeast-trans (entries mp_game games) h);
      bounded = length-take_le 10 sorted;
      full = drop-nil 10 sorted;
    }
