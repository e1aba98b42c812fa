-- ===== src/Player/Body.antt =====
-- What a player shows of itself, vangers-srv/src/player/body.rs. The rating is the bit pattern of an
-- `f32`, which `from_le_bytes` and `to_le_bytes` carry over as it is.
use vangers_srv.Base.{
  ℕ, ◌+◌, ◌≤◌, ◌≡◌, ap, ◌∙◌, Option, none, some, List, ◌∷◌, ◌++◌, arith, ltb, if◌then◌else◌, length,
  drop, to_le, IsBytes, byte, byte_at, word, word_at, slice_from, byte_at_in_range,
  word_at_in_range, slice_from_in_range, byte-drop, word-drop, Result, ok, ◌>>=◌, Bool-cases, inl,
  inr, ltb→le,
}

pub record Body : Type 0 where
  pub kills : ℕ
  pub deaths : ℕ
  pub color : ℕ
  pub world : ℕ
  pub beebos : ℕ
  pub rating : ℕ
  pub car_index : ℕ
  pub data1 : ℕ
  pub data2 : ℕ
  pub birth_time : ℕ
  pub net_id : ℕ
  pub stats : List ℕ

-- `get_base_struct_size`
abbrev pub base_size : ℕ
base_size = 1 + 1 + 1 + 1 + 4 + 4 + 1 + 2 + 2 + 4 + 4

-- `to_vangers_byte`
unfoldable pub body_bytes : Body → List ℕ
body_bytes b =
    b.kills
    ∷ b.deaths
    ∷ b.color
    ∷ b.world
    ∷ (to_le 4 b.beebos
        ++ (to_le 4 b.rating
            ++ (b.car_index
                ∷ (to_le 2 b.data1
                    ++ (to_le 2 b.data2
                        ++ (to_le 4 b.birth_time ++ (to_le 4 b.net_id ++ b.stats)))))))

-- `from_slice`
unfoldable pub body_from_slice : {E : Type 0} → List ℕ → Result E (Option Body)
body_from_slice s = if ltb (length s) base_size then ok none else do
  kills ← byte_at s 0
  deaths ← byte_at s 1
  color ← byte_at s 2
  world ← byte_at s 3
  beebos ← word_at s 4 4
  rating ← word_at s 8 4
  car_index ← byte_at s 12
  data1 ← word_at s 13 2
  data2 ← word_at s 15 2
  birth_time ← word_at s 17 4
  net_id ← word_at s 21 4
  stats ← slice_from s 25
  ok (
      some (record {
        kills = kills;
        deaths = deaths;
        color = color;
        world = world;
        beebos = beebos;
        rating = rating;
        car_index = car_index;
        data1 = data1;
        data2 = data2;
        birth_time = birth_time;
        net_id = net_id;
        stats = stats;
      }))

abbrev pub read_body : List ℕ → Body
read_body s = record {
  kills = byte s 0;
  deaths = byte s 1;
  color = byte s 2;
  world = byte s 3;
  beebos = word s 4 4;
  rating = word s 8 4;
  car_index = byte s 12;
  data1 = word s 13 2;
  data2 = word s 15 2;
  birth_time = word s 17 4;
  net_id = word s 21 4;
  stats = drop 25 s;
}

-- `from_slice` never panics: it returns nothing on fewer than 25 bytes, and a body on all others.
pub body_from_slice_cases :
    {E : Type 0} (s : List ℕ)
    → body_from_slice {E = E} s ≡ (if ltb (length s) 25 then ok none else ok (some (read_body s)))
unfolding body_from_slice
body_from_slice_cases {E} s = elim (Bool-cases (ltb (length s) 25)) [
  | inl e ↦ rw e
  | inr e ↦
      let long : 25 ≤ length s = ltb→le (length s) 25 e in
      rw e (
        simp (
          byte_at_in_range {E = E} s 0 (omega arith),
          byte_at_in_range {E = E} s 1 (omega arith),
          byte_at_in_range {E = E} s 2 (omega arith),
          byte_at_in_range {E = E} s 3 (omega arith),
          word_at_in_range {E = E} s 4 4 (omega arith),
          word_at_in_range {E = E} s 8 4 (omega arith),
          byte_at_in_range {E = E} s 12 (omega arith),
          word_at_in_range {E = E} s 13 2 (omega arith),
          word_at_in_range {E = E} s 15 2 (omega arith),
          word_at_in_range {E = E} s 17 4 (omega arith),
          word_at_in_range {E = E} s 21 4 (omega arith),
          slice_from_in_range {E = E} s 25 (omega arith),
        ))
]

read_body_bytes : (s : List ℕ) → IsBytes s → 25 ≤ length s → body_bytes (read_body s) ≡ s
unfolding body_bytes
read_body_bytes s h long = rw (
  word-drop s 21 4 h (omega arith),
  word-drop s 17 4 h (omega arith),
  word-drop s 15 2 h (omega arith),
  word-drop s 13 2 h (omega arith),
  byte-drop s 12 (omega arith),
  word-drop s 8 4 h (omega arith),
  word-drop s 4 4 h (omega arith),
  byte-drop s 3 (omega arith),
  byte-drop s 2 (omega arith),
  byte-drop s 1 (omega arith),
  byte-drop s 0 (omega arith),
)

body_from_slice_inv :
    {E : Type 0} (s : List ℕ) (b : Body)
    → body_from_slice {E = E} s ≡ ok (some b)
    → (25 ≤ length s) × (b ≡ read_body s)
body_from_slice_inv {E} s b e = ground (arith, body_from_slice_cases {E = E} s)

-- A slice of bytes that is read as a body is what the body is written as: the server gives back every
-- byte that the client sent, the statistics behind the header included.
pub body_bytes-body_from_slice :
    {E : Type 0} (s : List ℕ) (b : Body)
    → IsBytes s
    → body_from_slice {E = E} s ≡ ok (some b)
    → body_bytes b ≡ s
body_bytes-body_from_slice {E} s b h e =
    let (long, eq) = body_from_slice_inv {E = E} s b e in
    ap body_bytes eq ∙ read_body_bytes s h long
