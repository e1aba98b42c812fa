-- ===== src/Vanject/Slices.antt =====
-- What the two parsers of an object return, on every slice (vanject.rs).
use vangers_srv.Base.{
  ℕ, ◌+◌, ◌≤◌, ◌≡◌, some, List, arith, ltb, ◌==◌, if◌then◌else◌, length, drop, sub_list, from_le,
  word, ok, err, slice_in_range, slice_from_in_range, word_at_in_range, length-sub_list, Bool-cases,
  inl, inr, ltb→le,
}
use vangers_srv.Vanject.Nid
use vangers_srv.Vanject.Ids.{get_vanject_type}
use vangers_srv.Vanject.{
  Pos, Vanject, VanjectError, slice_too_small, mismatch_id, pos_from_slice, pos_at, body_from,
  create_from_slice, update_from_slice,
}

abbrev pub position : List ℕ → ℕ → Pos
position s from = record {
  x = from_le (sub_list (sub_list s from 4) 0 2);
  y = from_le (sub_list (sub_list s from 4) 2 2);
}

pos_from_four :
    {E : Type 0} (s : List ℕ)
    → length s ≡ 4
    → pos_from_slice {E = E} s
      ≡ ok (some (record { x = from_le (sub_list s 0 2); y = from_le (sub_list s 2 2) }))
unfolding pos_from_slice
pos_from_four {E} s h =
    ground (arith, word_at_in_range {E = E} s 0 2, word_at_in_range {E = E} s 2 2)

pub pos_at_in_range :
    {E : Type 0} (s : List ℕ) (from : ℕ)
    → from + 4 ≤ length s
    → pos_at {E = E} s from ≡ ok (position s from)
unfolding pos_at
pos_at_in_range {E} s from h =
    rw (slice_in_range s from 4 h)
      (rw (pos_from_four {E = E} (sub_list s from 4) (length-sub_list s from 4 h)))

pub body_from_cases :
    (s : List ℕ) (id header : ℕ)
    → header ≤ length s
    → body_from s id header ≡ (
        if get_vanject_type id == Nid.vanger
        then (if ltb (length s) (header + 2) then err slice_too_small else ok (drop (header + 2) s))
        else ok (drop header s))
unfolding body_from
body_from_cases s id header h = ground (
  arith,
  slice_from_in_range {E = VanjectError} s (header + 2),
  slice_from_in_range {E = VanjectError} s header,
)

-- What a slice that is long enough says of an object whose body begins at `body`.
abbrev pub created : List ℕ → ℕ → Vanject
created s body = record {
  id = word s 0 4;
  player_bind_id = 0;
  time = word s 4 4;
  pos = position s 8;
  radius = word s 12 2;
  body = drop body s;
}

-- `create_from_slice` never panics. It fails on fewer than 14 bytes, and on fewer than 16 where the id
-- is a VANGER's; otherwise it returns the object that the fields of the slice say.
pub create_from_slice_cases :
    (s : List ℕ)
    → create_from_slice s ≡ (
        if ltb (length s) 14
        then err slice_too_small
        else if get_vanject_type (word s 0 4) == Nid.vanger
        then (if ltb (length s) 16 then err slice_too_small else ok (created s 16))
        else ok (created s 14))
unfolding create_from_slice
create_from_slice_cases s = elim (Bool-cases (ltb (length s) 14)) [
  | inl e ↦ rw e
  | inr e ↦
      let long : 14 ≤ length s = ltb→le (length s) 14 e in
      rw e (
        simp
          (
            word_at_in_range {E = VanjectError} s 0 4 (omega arith),
            word_at_in_range {E = VanjectError} s 4 4 (omega arith),
            word_at_in_range {E = VanjectError} s 12 2 (omega arith),
            pos_at_in_range {E = VanjectError} s 8 (omega arith),
            body_from_cases s (word s 0 4) 14 (omega arith),
          )
          (ground arith))
]

-- The object `v` with what a slice says of it.
abbrev pub updated : Vanject → List ℕ → ℕ → Vanject
updated v s body = record v { time = word s 4 4; pos = position s 8; body = drop body s }

-- `update_from_slice` never panics. It fails on fewer than 12 bytes, on the id of another object, and
-- on fewer than 14 bytes for a VANGER; otherwise time, position and body are those of the slice.
pub update_from_slice_cases :
    (v : Vanject) (s : List ℕ)
    → update_from_slice v s ≡ (
        if ltb (length s) 12
        then err slice_too_small
        else if word s 0 4 == v.id
        then (if get_vanject_type (word s 0 4) == Nid.vanger
            then (if ltb (length s) 14 then err slice_too_small else ok (updated v s 14))
            else ok (updated v s 12))
        else err (mismatch_id v.id (word s 0 4)))
unfolding update_from_slice
update_from_slice_cases v s = elim (Bool-cases (ltb (length s) 12)) [
  | inl e ↦ rw e
  | inr e ↦
      let long : 12 ≤ length s = ltb→le (length s) 12 e in
      rw e (
        simp
          (
            word_at_in_range {E = VanjectError} s 0 4 (omega arith),
            word_at_in_range {E = VanjectError} s 4 4 (omega arith),
            pos_at_in_range {E = VanjectError} s 8 (omega arith),
            body_from_cases s (word s 0 4) 12 (omega arith),
          )
          (ground arith))
]
