-- ===== src/Server/Callback/Items.antt =====
-- Items and the packets that tell of them, vangers-srv/src/server/callback/item_transfer.rs.
use vangers_srv.Base.{
  ℕ, ◌&&◌, Option, none, some, [], ◌∷◌, ◌++◌, ltb, ◌==◌, if◌then◌else◌, length, sub_list, from_le,
  to_le, Map, contains_key, Result,
}
use vangers_srv.Protocol.{Packet, new}
use vangers_srv.Protocol.Actions.{Action}
use vangers_srv.Vanject.{Vanject, vanject_bytes}
use vangers_srv.Vanject.Nid
use vangers_srv.Vanject.Ids.{get_vanject_type, is_item_type}

abbrev pub item_state_in_inventory : ℕ
item_state_in_inventory = 1

abbrev pub item_state_in_world : ℕ
item_state_in_world = 2

abbrev pub reason_delete : ℕ
reason_delete = 1

-- `item_linked_id`; the slice of a body that is long enough is in range.
unfoldable pub item_linked_id : Vanject → Option ℕ
item_linked_id v = if ltb (length v.body) 5 then none else some (from_le (sub_list v.body 1 4))

-- `item_has_paired_vanject`
unfoldable pub item_has_paired_vanject : Vanject → Map Vanject → Option ℕ
item_has_paired_vanject v vanjects = elim (item_linked_id v) [
  | none ↦ none
  | some linked_id ↦
      if is_item_type (get_vanject_type linked_id) && contains_key linked_id vanjects
      then some linked_id
      else none
]

-- `item_state_for_vanject`
unfoldable pub item_state_for_vanject : Vanject → ℕ
unfolding get_vanject_type
item_state_for_vanject v =
    if get_vanject_type v.id == Nid.device
    then item_state_in_inventory
    else if get_vanject_type v.id == Nid.stuff
    then item_state_in_world
    else 0

-- `item_state_packet`
unfoldable pub item_state_packet : {E : Type 0} → ℕ → Vanject → Result E Packet
unfolding item_state_for_vanject
item_state_packet previous_id v =
    new Action.item_state (item_state_for_vanject v ∷ (to_le 4 previous_id ++ vanject_bytes v))

-- `item_removed_packet`
unfoldable pub item_removed_packet : {E : Type 0} → Vanject → ℕ → Result E Packet
unfolding item_linked_id
item_removed_packet v reason =
    let paired_id : ℕ = elim (item_linked_id v) [ none ↦ 0 | some id ↦ id ] in
    new Action.item_removed (to_le 4 v.id ++ (to_le 4 paired_id ++ reason ∷ []))
