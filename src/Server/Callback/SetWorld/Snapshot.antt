-- ===== src/Server/Callback/SetWorld/Snapshot.antt =====
-- The objects that a player is shown when it enters a world, vangers-srv/src/server/callback/set_world.rs.
use vangers_srv.Base.{
  ℕ, ◌+◌, ◌%◌, ◌^◌, Bool, true, false, not, ◌&&◌, ◌||◌, List, [], ◌∷◌, leb, ltb, ◌==◌,
  if◌then◌else◌, select, map, Map, Result, ok, err, panic,
}
use vangers_srv.Base.Sorting.{sort_by}
use vangers_srv.Protocol.{Packet, new}
use vangers_srv.Protocol.Actions.{Action}
use vangers_srv.Vanject.{Vanject, vanject_bytes, get_type, is_item_vanject}
use vangers_srv.Vanject.Nid
use vangers_srv.Vanject.Ids.{get_world}
use vangers_srv.Server.Callback.Items.{item_state_packet}

-- `world_snapshot_order`
unfoldable pub world_snapshot_order : Vanject → ℕ
world_snapshot_order v =
    if get_type v == Nid.vanger
    then 0
    else if get_type v == Nid.slot
    then 1
    else if get_type v == Nid.device
    then 2
    else if get_type v == Nid.shell
    then 3
    else if get_type v == Nid.stuff
    then 4
    else 255

-- `should_include_in_world_snapshot`
unfoldable pub should_include_in_world_snapshot : ℕ → ℕ → Vanject → Bool
should_include_in_world_snapshot world_id joining_player_bind_id v =
    let foreign = not (v.player_bind_id == joining_player_bind_id) in
    if not (get_world v.id == world_id)
    then false
    else if get_type v == Nid.stuff
    then true
    else if get_type v == Nid.vanger
        || (get_type v == Nid.slot || (get_type v == Nid.device || get_type v == Nid.shell))
    then foreign
    else false

-- An `i32` as a number of the same order.
abbrev pub signed_rank : ℕ → ℕ
signed_rank id = (id + 2 ^ 31) % 2 ^ 32

-- The order of the keys `(world_snapshot_order(v), v.id)`.
unfoldable pub before : Vanject → Vanject → Bool
unfolding world_snapshot_order
before v w =
    ltb (world_snapshot_order v) (world_snapshot_order w)
    || (world_snapshot_order v == world_snapshot_order w
        && leb (signed_rank v.id) (signed_rank w.id))

-- `sort_by_key`
unfoldable pub sort_objects : List Vanject → List Vanject
unfolding sort_by
sort_objects vs = sort_by before vs

abbrev pub values : Map Vanject → List Vanject
values m = map (λ e. e.1) m

-- The objects of the snapshot, in their order.
unfoldable pub snapshot : ℕ → ℕ → Map Vanject → List Vanject
unfolding should_include_in_world_snapshot sort_objects
snapshot world_id bind_id m =
    sort_objects (select (should_include_in_world_snapshot world_id bind_id) (values m))

unfoldable pub snapshot_packet : {E : Type 0} → Vanject → Result E Packet
unfolding item_state_packet
snapshot_packet v =
    if is_item_vanject v then item_state_packet 0 v else new Action.update_object (vanject_bytes v)

unfoldable pub snapshot_packets : {E : Type 0} → List Vanject → Result E (List Packet)
unfolding snapshot_packet
snapshot_packets [] = ok []
snapshot_packets (v ∷ vs) =
    let rest = snapshot_packets vs in
    elim (snapshot_packet v) [
      | ok p ↦ elim rest [ ok ps ↦ ok (p ∷ ps) | err e ↦ err e | panic ↦ panic ]
      | err e ↦ err e
      | panic ↦ panic
    ]
