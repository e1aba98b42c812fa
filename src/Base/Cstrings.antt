-- ===== src/Base/Cstrings.antt =====
-- Byte strings that a null byte closes: what reading one gives, and cutting it.
use Prim.Native.Nat.{ℕ, zero, suc, ◌≤◌}
use mathlib.Core.Path.{sym, ◌≡◌, refl, ap, ◌∙◌}
use mathlib.Core.Bool.{false}
use mathlib.Core.Option.{some}
use mathlib.Core.List.{List, [], ◌∷◌, ◌++◌}
use mathlib.Core.Logic.{inl, inr}
use native.Mathlib.Omega.{arith}
use vangers_srv.Base.Tests.{◌==◌, Bool-cases}
use vangers_srv.Base.Lists.{length, take, All}
use vangers_srv.Base.Tests.{Option-cases}
use vangers_srv.Base.Text.{until_nul}

-- A C string of bytes that are not the null byte.
pub record IsText (name text : List ℕ) : Type 0 where
  pub closed : name ≡ text ++ 0 ∷ []
  pub whole : All (λ c. (c == 0) ≡ false) text

pub until_nul-IsText :
    (bytes name : List ℕ) → until_nul bytes ≡ some name → (text : List ℕ) × IsText name text
unfolding until_nul
until_nul-IsText [] name h = cc
until_nul-IsText (b ∷ bs) name h = elim (Bool-cases (b == 0)) [
  | inl e ↦ ([], record { closed = ground arith; whole = tt })
  | inr e ↦ elim (Option-cases (until_nul bs)) [
    | inl t ↦ absurd (ground arith)
    | inr (r, t) ↦
        let (text, is_text) = until_nul-IsText bs r t in
        let front : name ≡ b ∷ r = ground arith in
        (
          b ∷ text,
          record { closed = front ∙ ap (λ x. b ∷ x) is_text.closed; whole = (e, is_text.whole) },
        )
  ]
]

pub take-append_left : (n : ℕ) (xs ys : List ℕ) → n ≤ length xs → take n (xs ++ ys) ≡ take n xs
take-append_left zero xs ys h = refl
take-append_left (suc n) [] ys h = absurd (omega arith)
take-append_left (suc n) (x ∷ xs) ys h = ap (λ t. x ∷ t) (take-append_left n xs ys (omega arith))

-- The C string is the beginning of the bytes.
pub until_nul-append :
    (bytes name : List ℕ) → until_nul bytes ≡ some name → (rest : List ℕ) × (bytes ≡ name ++ rest)
unfolding until_nul
until_nul-append [] name h = cc
until_nul-append (b ∷ bs) name h = elim (Bool-cases (b == 0)) [
  | inl e ↦ (bs, ground arith)
  | inr e ↦ elim (Option-cases (until_nul bs)) [
    | inl t ↦ absurd (ground arith)
    | inr (r, t) ↦
        let (rest, split) = until_nul-append bs r t in
        let front : name ≡ b ∷ r = ground arith in
        (rest, ap (λ x. b ∷ x) split ∙ ap (λ x. x ++ rest) (sym front))
  ]
]
