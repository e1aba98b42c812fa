-- ===== src/Server/Callback/UpdateObject.antt =====
-- UPDATE_OBJECT, vangers-srv/src/server/callback/update_object.rs. Log records are left out.
pub mod Approval
pub mod Accepted
pub mod Ownership
pub mod Atomic
use vangers_srv.Base.{
  err, ℕ, Bool, false, not, ltb, ◌==◌, List, if◌then◌else◌, length, word_at, modify, Result,
  map_err,
}
use vangers_srv.Base.Exec
use vangers_srv.Base.Exec.{Exec, pure, lift, inspect, check, convert, ◌>>=◌, ◌>>◌}
use vangers_srv.Protocol.{Packet, new}
use vangers_srv.Protocol.Actions.{Action}
use vangers_srv.Vanject.{Vanject, vanject_bytes, update_from_slice, is_item_vanject}
use vangers_srv.Vanject.Nid
use vangers_srv.Vanject.Ids.{get_world, get_vanject_type, is_non_global_vanject}
use vangers_srv.Game.{Game}
use vangers_srv.Server.{Server, Channel, reliable, realtime, in_game, notify_world, notify_game}
use vangers_srv.Server.Errors.{
  UpdateObjectError, slice_too_small, slice_to_vanject_parse, player_not_found, OnUpdateError,
  update_object_error, OnUpdateOk, complete,
}
use vangers_srv.Server.Callback.Items.{item_state_packet}
use Approval.{approve}

-- `is_realtime_coalesced_update`
unfoldable pub is_realtime_coalesced_update : ℕ → Bool
is_realtime_coalesced_update id = get_vanject_type id == Nid.vanger

-- The packet that tells of an object.
unfoldable pub state_packet : {E : Type 0} → Vanject → Result E Packet
state_packet v =
    if is_item_vanject v then item_state_packet 0 v else new Action.update_object (vanject_bytes v)

-- The object as the update leaves it, owned by the player that sent it.
abbrev pub owned_by : ℕ → Vanject → Vanject
owned_by bind_id v = record v { player_bind_id = bind_id }

-- What is written, and the packet that tells of it.
unfoldable pub write_object : {E : Type 0} → ℕ → Vanject → Exec Game E (Packet × (Bool × ℕ))
write_object vanject_id v = do
  Exec.update λ (g : Game). record g { vanjects = modify vanject_id (λ _. v) g.vanjects }
  packet ← lift (state_packet v)
  pure (packet, (is_non_global_vanject v.id, get_world v.id))

-- What happens in the sender's game.
unfoldable pub update_in_game : ℕ → ℕ → List ℕ → Exec Game UpdateObjectError (Packet × (Bool × ℕ))
update_in_game client_id vanject_id bytes = do
  (bind_id, v) ← inspect (approve client_id vanject_id)
  v' ← lift (map_err slice_to_vanject_parse (update_from_slice v bytes))
  write_object vanject_id (owned_by bind_id v')

-- To the other players of the object's world, or of the game for a global object.
unfoldable pub tell : {E : Type 0} → Channel → ℕ → Packet × (Bool × ℕ) → Exec Server E (Unit {0})
tell channel client_id (packet, (is_non_global, world)) =
    if is_non_global
    then notify_world channel client_id world packet false
    else notify_game channel client_id packet

-- `update_object`
unfoldable pub update_object : ℕ → Packet → Exec Server OnUpdateError OnUpdateOk
update_object client_id packet = do
  check (not (ltb (length packet.bytes) 4)) (update_object_error slice_too_small)
  vanject_id ← lift (word_at packet.bytes 0 4)
  told ← convert update_object_error (
      in_game client_id (err (player_not_found client_id))
        (update_in_game client_id vanject_id packet.bytes))
  tell (if is_realtime_coalesced_update vanject_id then realtime else reliable) client_id told
  pure complete
