-- ===== src/Server/Callback/CreateObject/Approval.antt =====
-- The checks of CREATE_OBJECT for an object that is not there yet, and the packets that tell of one
-- that is, vangers-srv/src/server/callback/create_object.rs. They only read.
use vangers_srv.Base.{
  ℕ, ◌==◌, none, some, List, [], ◌∷◌, if◌then◌else◌, Result, ok, err, ok_or, unwrap, ◌>>=◌, ◌>>◌,
}
use vangers_srv.Protocol.{Packet, new}
use vangers_srv.Protocol.Actions.{Action}
use vangers_srv.Vanject.{Vanject, pos_bytes, vanject_bytes, get_type, is_item_vanject}
use vangers_srv.Vanject.Nid
use vangers_srv.Player.{Player}
use vangers_srv.Game.{Game, get_player}
use vangers_srv.Server.Errors.{CreateObjectError, player_not_bind, paired_item_already_exists}
use vangers_srv.Server.Callback.Items.{item_has_paired_vanject, item_state_packet}

-- An item whose other form is there is not created.
unfoldable pub approve_item : Vanject → Game → Result CreateObjectError (Unit {0})
approve_item v g =
    if is_item_vanject v
    then elim (item_has_paired_vanject v g.vanjects) [
      | none ↦ ok tt
      | some paired_id ↦ err (paired_item_already_exists v.id paired_id)
    ]
    else ok tt

-- The checks; the result is the player with its bind id.
unfoldable pub approve : ℕ → Vanject → Game → Result CreateObjectError (ℕ × Player)
approve client_id v g = do
  approve_item v g
  player ← unwrap (get_player client_id g.players)
  bind_id ← ok_or player.bind (player_not_bind client_id)
  ok (bind_id, player)

-- `packets[0]`, made twice for an item.
unfoldable pub replayed_state : {E : Type 0} → Vanject → Result E Packet
replayed_state v = do
  packet ← new Action.update_object (vanject_bytes v)
  if is_item_vanject v then item_state_packet 0 v else ok packet

-- The packets that tell the sender of an object that is there already.
unfoldable pub replay_packets : {E : Type 0} → Vanject → Result E (List Packet)
replay_packets v = do
  state ← replayed_state v
  if get_type v == Nid.vanger
      then (do
        position ← new Action.players_position (v.player_bind_id ∷ pos_bytes v.pos)
        ok (state ∷ position ∷ []))
      else ok (state ∷ [])
