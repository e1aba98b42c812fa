-- ===== src/Vanject.antt =====
-- Objects of the game world and their slices, vangers-srv/src/vanject.rs.
pub mod Nid
pub mod Ids
pub mod Fields
pub mod Slices
pub mod Relay
use vangers_srv.Base.{
  ℕ, ◌+◌, Bool, true, false, not, Option, none, some, List, [], ◌∷◌, ◌++◌, ltb, leb, ◌==◌,
  if◌then◌else◌, length, drop, take, to_le, from_le, slice, slice_from, slice_le, word_at, Result,
  ok, err, panic, ◌>>=◌, ◌>>◌, guard, unwrap,
}
use Nid
use Ids.{get_vanject_type, is_item_type}

-- `Pos<i16>`
pub record Pos : Type 0 where
  pub x : ℕ
  pub y : ℕ

-- `Pos::from_slice`
unfoldable pub pos_from_slice : {E : Type 0} → List ℕ → Result E (Option Pos)
pos_from_slice s =
    if length s == 4
    then (do x ← word_at s 0 2; y ← word_at s 2 2; ok (some (record { x = x; y = y })))
    else ok none

-- `Pos::to_vangers_byte`
abbrev pub pos_bytes : Pos → List ℕ
pos_bytes p = to_le 2 p.x ++ to_le 2 p.y

-- `VanjectError`; `mismatch_id` is its case `Update(MissmatchId)`, and `Create` has no value.
pub data VanjectError : Type 0 where
  slice_too_small : VanjectError
  mismatch_id : ℕ → ℕ → VanjectError

pub record Vanject : Type 0 where
  pub id : ℕ
  pub player_bind_id : ℕ
  pub time : ℕ
  pub pos : Pos
  pub radius : ℕ
  pub body : List ℕ

-- `Pos::from_slice(&slice[from..from + 4]).unwrap()`
unfoldable pub pos_at : {E : Type 0} → List ℕ → ℕ → Result E Pos
pos_at s from = do bytes ← slice s from 4; pos ← pos_from_slice bytes; unwrap pos

-- The body of a slice: behind the header, and behind two bytes of screen size for a VANGER.
unfoldable pub body_from : List ℕ → ℕ → ℕ → Result VanjectError (List ℕ)
body_from s id header =
    if get_vanject_type id == Nid.vanger
    then (if ltb (length s) (header + 2) then err slice_too_small else slice_from s (header + 2))
    else slice_from s header

-- `Vanject::create_from_slice`
unfoldable pub create_from_slice : List ℕ → Result VanjectError Vanject
create_from_slice s = if ltb (length s) 14 then err slice_too_small else do
  id ← word_at s 0 4
  time ← word_at s 4 4
  pos ← pos_at s 8
  radius ← word_at s 12 2
  body ← body_from s id 14
  ok (record { id = id; player_bind_id = 0; time = time; pos = pos; radius = radius; body = body })

-- `Vanject::update_from_slice`; the object is written only when nothing failed.
unfoldable pub update_from_slice : Vanject → List ℕ → Result VanjectError Vanject
update_from_slice v s = if ltb (length s) 12 then err slice_too_small else do
  id ← word_at s 0 4
  guard (id == v.id) (mismatch_id v.id id)
  time ← word_at s 4 4
  pos ← pos_at s 8
  body ← body_from s id 12
  ok (record v { time = time; pos = pos; body = body })

-- `Vanject::to_vangers_byte`
unfoldable pub vanject_bytes : Vanject → List ℕ
vanject_bytes v =
    to_le 4 v.id
    ++ (v.player_bind_id ∷ (to_le 4 v.time ++ (to_le 2 v.pos.x ++ (to_le 2 v.pos.y ++ v.body))))

-- `Vanject::get_type`
abbrev pub get_type : Vanject → ℕ
get_type v = get_vanject_type v.id

-- `is_item_vanject` of server/callback/item_transfer.rs
abbrev pub is_item_vanject : Vanject → Bool
is_item_vanject v = is_item_type (get_type v)
