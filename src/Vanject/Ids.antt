-- ===== src/Vanject/Ids.antt =====
-- The fields that the network id of an object packs, vangers-srv/src/vanject.rs. An id is the bit
-- pattern of an `i32`. A mask of `n` adjacent bits from bit `k` on is `x / 2 ^ k % 2 ^ n * 2 ^ k`.
use vangers_srv.Base.{
  ℕ, ◌+◌, ◌-◌, ◌*◌, ◌/◌, ◌%◌, ◌^◌, ◌<◌, Bool, not, ◌&&◌, ◌||◌, ltb, leb, ◌==◌, if◌then◌else◌,
}
use vangers_srv.Vanject.Nid

abbrev pub IsI32 : ℕ → Type 0
IsI32 w = w < 2 ^ 32

-- `w >> k` on an `i32`: the sign bit is copied.
abbrev pub sar : ℕ → ℕ → ℕ
sar w k = if ltb w (2 ^ 31) then w / 2 ^ k else w / 2 ^ k + (2 ^ 32 - 2 ^ (32 - k))

-- `get_station`: `(id >> 26) & 31`
unfoldable pub get_station : ℕ → ℕ
get_station id = sar id 26 % 32

-- `get_world`: `(id >> 22) & 15`
unfoldable pub get_world : ℕ → ℕ
get_world id = sar id 22 % 16

-- `get_vanject_type`: `id & (63 << 16)`
unfoldable pub get_vanject_type : ℕ → ℕ
get_vanject_type id = id / 2 ^ 16 % 64 * 2 ^ 16

-- `is_non_static`: `(id as u32 & (1 << 31)) == 0`
unfoldable pub is_non_static : ℕ → Bool
is_non_static id = id / 2 ^ 31 % 2 * 2 ^ 31 == 0

-- `is_players_vanject`: `(id as u32 & (7 << 16 + 3)) == 0`, where `+` binds tighter than `<<`
unfoldable pub is_players_vanject : ℕ → Bool
is_players_vanject id = id / 2 ^ 19 % 8 * 2 ^ 19 == 0

-- `is_private_vanject`: `(id >> 16) & 63` is from 8 to 10
unfoldable pub is_private_vanject : ℕ → Bool
is_private_vanject id = leb 8 (sar id 16 % 64) && leb (sar id 16 % 64) 10

-- `is_non_global_vanject`: `((id as u32 >> 16) & 63) != 0`
unfoldable pub is_non_global_vanject : ℕ → Bool
is_non_global_vanject id = not (id / 2 ^ 16 % 64 == 0)

-- `is_static_world_vanject`
unfoldable pub is_static_world_vanject : ℕ → Bool
unfolding is_non_global_vanject is_non_static
is_static_world_vanject id = is_non_global_vanject id && not (is_non_static id)

-- `DecodedVanjectId`
pub record DecodedVanjectId : Type 0 where
  pub id : ℕ
  pub station : ℕ
  pub world : ℕ
  pub type_id : ℕ
  pub counter : ℕ
  pub global : Bool
  pub private : Bool
  pub players_object : Bool
  pub static_object : Bool

-- `DecodedVanjectId::new`
unfoldable pub decode : ℕ → DecodedVanjectId
unfolding get_station get_world is_non_global_vanject is_private_vanject is_players_vanject
    is_non_static
decode id = record {
  id = id;
  station = get_station id;
  world = get_world id;
  type_id = sar id 16 % 64;
  counter = id % 2 ^ 16;
  global = not (is_non_global_vanject id);
  private = is_private_vanject id;
  players_object = is_players_vanject id;
  static_object = not (is_non_static id);
}

pub data TypeName : Type 0 where
  global device slot shell vanger stuff sensor tnt terrain unknown : TypeName

-- `DecodedVanjectId::type_name`
unfoldable pub type_name : DecodedVanjectId → TypeName
unfolding get_vanject_type
type_name d =
    let t = get_vanject_type d.id in
    if t == Nid.global
    then global
    else if t == Nid.device
    then device
    else if t == Nid.slot
    then slot
    else if t == Nid.shell
    then shell
    else if t == Nid.vanger
    then vanger
    else if t == Nid.stuff
    then stuff
    else if t == Nid.sensor
    then sensor
    else if t == Nid.tnt
    then tnt
    else if t == Nid.terrain
    then terrain
    else unknown

-- `should_log_realtime_update`
unfoldable pub should_log_realtime_update : DecodedVanjectId → Bool
unfolding get_vanject_type
should_log_realtime_update d =
    let t = get_vanject_type d.id in
    d.global || (t == Nid.device || (t == Nid.slot || (t == Nid.vanger || t == Nid.stuff)))

-- `is_item_type` of server/callback/item_transfer.rs
unfoldable pub is_item_type : ℕ → Bool
is_item_type t = t == Nid.stuff || t == Nid.device
