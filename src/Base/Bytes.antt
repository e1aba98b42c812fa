-- ===== src/Base/Bytes.antt =====
-- Bytes and little-endian words. A byte is a number below 256; an `i16`, an `i32` or a `u32` is its
-- bit pattern, below 2 ^ 16 or 2 ^ 32. A slice out of range panics, as `s.try_into().unwrap()` does on
-- a slice of another length (utils/util.rs).
use Prim.Native.Nat.{ℕ, zero, suc, ◌+◌, ◌*◌, ◌/◌, ◌%◌, ◌^◌, ◌≤◌, ◌<◌}
use mathlib.Core.Path.{◌≡◌, refl, ap, ap₂, ◌∙◌}
use mathlib.Core.List.{List, [], ◌∷◌}
use native.Mathlib.Omega.{arith}
use native.Mathlib.Nat.{pow-suc}
use vangers_srv.Base.Tests.{leb, ◌==◌, if◌then◌else◌}
use vangers_srv.Base.Lists.{length, take, drop, All, All-take, All-drop, length-take, length-drop}
use vangers_srv.Base.Outcomes.{Result, ok, panic, ◌>>=◌}

abbrev pub IsByte : ℕ → Type 0
IsByte b = b < 256

abbrev pub IsBytes : List ℕ → Type 0
IsBytes bs = All IsByte bs

-- `to_le_bytes` of a word of `k` bytes, and `from_le_bytes`.
abbrev pub to_le : ℕ → ℕ → List ℕ
to_le zero n = []
to_le (suc k) n = (n % 256) ∷ to_le k (n / 256)

abbrev pub from_le : List ℕ → ℕ
from_le [] = 0
from_le (b ∷ bs) = b + 256 * from_le bs

pub length-to_le : (k n : ℕ) → length (to_le k n) ≡ k
length-to_le zero n = refl
length-to_le (suc k) n = ap suc (length-to_le k (n / 256))

pub to_le-IsBytes : (k n : ℕ) → IsBytes (to_le k n)
to_le-IsBytes zero n = tt
to_le-IsBytes (suc k) n = (omega arith, to_le-IsBytes k (n / 256))

pub from_le-to_le : (k n : ℕ) → n < 256 ^ k → from_le (to_le k n) ≡ n
from_le-to_le zero n h = omega arith
from_le-to_le (suc k) n h =
    omega (arith, pow-suc 256 k, from_le-to_le k (n / 256) (omega (arith, pow-suc 256 k)))

pub to_le-from_le : (bs : List ℕ) → IsBytes bs → to_le (length bs) (from_le bs) ≡ bs
to_le-from_le [] h = refl
to_le-from_le (b ∷ bs) h =
    ap₂ ◌∷◌ (low b (from_le bs) h.0)
      (ap (to_le (length bs)) (high b (from_le bs) h.0) ∙ to_le-from_le bs h.1)
  where
    low : (b n : ℕ) → b < 256 → (b + 256 * n) % 256 ≡ b
    low b n p = omega arith

    high : (b n : ℕ) → b < 256 → (b + 256 * n) / 256 ≡ n
    high b n p = omega arith

pub from_le-lt : (bs : List ℕ) → IsBytes bs → from_le bs < 256 ^ length bs
from_le-lt [] h = omega arith
from_le-lt (b ∷ bs) h = omega (arith, pow-suc 256 (length bs), from_le-lt bs h.1)

-- `&xs[from..from + size]` where that is in range.
abbrev pub sub_list : List ℕ → ℕ → ℕ → List ℕ
sub_list xs from size = take size (drop from xs)

-- `&xs[from..from + size]` and `&xs[from..]`
unfoldable pub slice : {E : Type 0} → List ℕ → ℕ → ℕ → Result E (List ℕ)
slice xs from size = if leb (from + size) (length xs) then ok (sub_list xs from size) else panic

unfoldable pub slice_from : {E : Type 0} → List ℕ → ℕ → Result E (List ℕ)
slice_from xs from = if leb from (length xs) then ok (drop from xs) else panic

-- `slice_le_to_i16`, `slice_le_to_i32` and `slice_le_to_u32` are this at 2, 4 and 4 bytes.
unfoldable pub slice_le : {E : Type 0} → ℕ → List ℕ → Result E ℕ
slice_le size s = if length s == size then ok (from_le s) else panic

-- `slice_le_to_i32(&xs[from..from + 4])`, or with 2 bytes for an `i16`.
unfoldable pub word_at : {E : Type 0} → List ℕ → ℕ → ℕ → Result E ℕ
unfolding slice slice_le
word_at xs from size = do s ← slice xs from size; slice_le size s

pub length-sub_list :
    (xs : List ℕ) (from size : ℕ) → from + size ≤ length xs → length (sub_list xs from size) ≡ size
length-sub_list xs from size h =
    length-take size (drop from xs) (omega (arith, length-drop from xs (omega arith)))

pub slice_in_range :
    {E : Type 0} (xs : List ℕ) (from size : ℕ)
    → from + size ≤ length xs
    → slice {E = E} xs from size ≡ ok (sub_list xs from size)
unfolding slice
slice_in_range xs from size h = ground arith

pub slice_from_in_range :
    {E : Type 0} (xs : List ℕ) (from : ℕ)
    → from ≤ length xs
    → slice_from {E = E} xs from ≡ ok (drop from xs)
unfolding slice_from
slice_from_in_range xs from h = ground arith

pub word_at_in_range :
    {E : Type 0} (xs : List ℕ) (from size : ℕ)
    → from + size ≤ length xs
    → word_at {E = E} xs from size ≡ ok (from_le (sub_list xs from size))
unfolding word_at
word_at_in_range xs from size h = ground (arith, length-sub_list xs from size h)

-- A word read from a slice and written again gives the slice's bytes.
pub to_le-word :
    (xs : List ℕ) (from size : ℕ)
    → IsBytes xs
    → from + size ≤ length xs
    → to_le size (from_le (sub_list xs from size)) ≡ sub_list xs from size
to_le-word xs from size h fits =
    ap (λ k. to_le k (from_le (sub_list xs from size))) (sym_length)
    ∙ to_le-from_le (sub_list xs from size)
        (All-take IsByte size (drop from xs) (All-drop IsByte from xs h))
  where
    sym_length : size ≡ length (sub_list xs from size)
    sym_length = omega (arith, length-sub_list xs from size fits)
