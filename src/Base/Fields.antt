-- ===== src/Base/Fields.antt =====
-- A slice read field by field and written again: each field, put before what follows it, gives what
-- stood there.
use Prim.Native.Nat.{ℕ, zero, suc, ◌+◌, ◌≤◌, ◌<◌}
use mathlib.Core.Path.{◌≡◌, refl, sym, ap, ◌∙◌}
use mathlib.Core.List.{List, [], ◌∷◌, ◌++◌}
use native.Mathlib.Omega.{arith}
use vangers_srv.Base.Lists.{length, take, drop, get_elem?, take-append-drop, drop-drop}
use vangers_srv.Base.Bytes.{IsBytes, to_le, from_le, sub_list, to_le-word}
use vangers_srv.Base.Outcomes.{Result, ok, unwrap}

-- `xs[i]`
unfoldable pub byte_at : {E : Type 0} → List ℕ → ℕ → Result E ℕ
byte_at xs i = unwrap (get_elem? xs i)

-- The byte at an index in range.
abbrev pub byte : List ℕ → ℕ → ℕ
byte [] i = 0
byte (x ∷ xs) zero = x
byte (x ∷ xs) (suc i) = byte xs i

pub byte_at_in_range :
    {E : Type 0} (xs : List ℕ) (i : ℕ) → i < length xs → byte_at {E = E} xs i ≡ ok (byte xs i)
unfolding byte_at
byte_at_in_range [] i h = absurd (omega arith)
byte_at_in_range (x ∷ xs) zero h = refl
byte_at_in_range (x ∷ xs) (suc i) h = byte_at_in_range xs i (omega arith)

-- The little-endian word at a place in range.
abbrev pub word : List ℕ → ℕ → ℕ → ℕ
word s from size = from_le (sub_list s from size)

pub byte-drop : (xs : List ℕ) (i : ℕ) → i < length xs → byte xs i ∷ drop (suc i) xs ≡ drop i xs
byte-drop [] i h = absurd (omega arith)
byte-drop (x ∷ xs) zero h = refl
byte-drop (x ∷ xs) (suc i) h = byte-drop xs i (omega arith)

pub word-drop :
    (xs : List ℕ) (from size : ℕ)
    → IsBytes xs
    → from + size ≤ length xs
    → to_le size (word xs from size) ++ drop (from + size) xs ≡ drop from xs
word-drop xs from size h fits =
    ap (λ t. t ++ drop (from + size) xs) (to_le-word xs from size h fits)
    ∙ ap (λ t. take size (drop from xs) ++ t) (sym (drop-drop from size xs))
    ∙ take-append-drop size (drop from xs)
