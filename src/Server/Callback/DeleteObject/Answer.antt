-- ===== src/Server/Callback/DeleteObject/Answer.antt =====
-- The decision of DELETE_OBJECT and the packet that tells of it,
-- vangers-srv/src/server/callback/delete_object.rs. They only read.
use vangers_srv.Base.{
  ℕ, Bool, false, not, ◌&&◌, ◌==◌, Option, none, some, List, ◌∷◌, ◌++◌, if◌then◌else◌, get_elem?,
  lookup, to_le, slice, slice_from, Result, err, ok_or, unwrap, ◌>>=◌,
}
use vangers_srv.Protocol.{Packet, new}
use vangers_srv.Protocol.Actions.{Action}
use vangers_srv.Vanject.{Vanject, is_item_vanject}
use vangers_srv.Game.{Game, get_player}
use vangers_srv.Server.Errors.{
  DeleteObjectError, player_not_bind, not_owner, legacy_item_transfer_delete,
}
use vangers_srv.Server.Callback.Items.{item_removed_packet, reason_delete}

-- `packet.data.get(8).copied() == Some(1)`
unfoldable pub legacy_item_transfer_marker : List ℕ → Bool
legacy_item_transfer_marker bytes = elim (get_elem? bytes 8) [ none ↦ false | some b ↦ b == 1 ]

-- The request with the sender's bind id put in behind the id; a request of fewer than 8 bytes panics.
unfoldable pub relayed_delete : {E : Type 0} → ℕ → ℕ → List ℕ → Result E Packet
relayed_delete vanject_id bind_id bytes = do
  time ← slice bytes 4 4
  rest ← slice_from bytes 8
  new Action.delete_object (to_le 4 vanject_id ++ (bind_id ∷ (time ++ rest)))

-- What becomes of the request for an object that is there, or is not.
unfoldable pub answer : ℕ → ℕ → List ℕ → Option Vanject → Result DeleteObjectError Packet
answer vanject_id bind_id bytes none = relayed_delete vanject_id bind_id bytes
answer vanject_id bind_id bytes (some v) =
    if not (v.player_bind_id == bind_id)
    then err (not_owner vanject_id bind_id)
    else if is_item_vanject v && legacy_item_transfer_marker bytes
    then err (legacy_item_transfer_delete vanject_id)
    else if is_item_vanject v
    then item_removed_packet v reason_delete
    else relayed_delete vanject_id bind_id bytes

unfoldable pub decide : ℕ → ℕ → List ℕ → Game → Result DeleteObjectError Packet
decide client_id vanject_id bytes g = do
  player ← unwrap (get_player client_id g.players)
  bind_id ← ok_or player.bind (player_not_bind client_id)
  answer vanject_id bind_id bytes (lookup vanject_id g.vanjects)
