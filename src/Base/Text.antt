-- ===== src/Base/Text.antt =====
-- Byte strings that a null byte closes, and decimal numbers.
use Prim.Native.Nat.{ℕ, zero, suc, ◌+◌, ◌/◌, ◌%◌}
use mathlib.Core.Option.{Option, none, some}
use mathlib.Core.List.{List, [], ◌∷◌, ◌++◌}
use vangers_srv.Base.Tests.{◌==◌, ltb, if◌then◌else◌}

abbrev cons_name : ℕ → Option (List ℕ) → Option (List ℕ)
cons_name b none = none
cons_name b (some bs) = some (b ∷ bs)

-- `CStr::from_bytes_until_nul`, as the bytes with the null byte.
unfoldable pub until_nul : List ℕ → Option (List ℕ)
until_nul [] = none
until_nul (b ∷ bs) = let rest = cons_name b (until_nul bs) in if b == 0 then some (0 ∷ []) else rest

-- `get_first_cstr` of utils/util.rs
unfoldable pub get_first_cstr : List ℕ → Option (List ℕ)
unfolding until_nul
get_first_cstr [] = none
get_first_cstr (b ∷ bs) = if b == 0 then none else until_nul (b ∷ bs)

-- The decimal digits of a number, with fuel; a `usize` has at most twenty.
unfoldable pub digits : ℕ → ℕ → List ℕ
digits zero n = []
digits (suc fuel) n =
    let rest = digits fuel (n / 10) in
    if ltb n 10 then (48 + n) ∷ [] else rest ++ (48 + n % 10) ∷ []

-- `{}` and `{:02}`, the latter below one hundred.
abbrev pub decimal : ℕ → List ℕ
decimal n = digits 20 n

abbrev pub two_digits : ℕ → List ℕ
two_digits n = (48 + n / 10) ∷ (48 + n % 10) ∷ []
