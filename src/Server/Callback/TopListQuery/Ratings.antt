-- ===== src/Server/Callback/TopListQuery/Ratings.antt =====
-- The order of ratings. A rating is the bit pattern of an `f32`: `a.partial_cmp(&b)` compares signs and
-- magnitudes, the two zeros are equal, and a NaN is not comparable.
use Prim.Native.Nat.{Ordering, eq, compare}
use vangers_srv.Base.{ℕ, ◌+◌, ◌-◌, ◌%◌, ◌^◌, Bool, ◌||◌, ltb, if◌then◌else◌}

-- The bits of a number without its sign.
abbrev pub magnitude : ℕ → ℕ
magnitude bits = bits % 2 ^ 31

abbrev pub is_nan : ℕ → Bool
is_nan bits = ltb 0x7f800000 (magnitude bits)

-- A number whose order is the one of the ratings.
unfoldable pub rank : ℕ → ℕ
rank bits = if ltb bits (2 ^ 31) then 2 ^ 31 + magnitude bits else 2 ^ 31 - magnitude bits

-- `a.partial_cmp(&b).unwrap_or(Ordering::Equal)`
unfoldable pub compare_ratings : ℕ → ℕ → Ordering
unfolding rank
compare_ratings a b = if is_nan a || is_nan b then eq else compare (rank a) (rank b)
