-- ===== src/Server/Callback/CreateObject.antt =====
-- CREATE_OBJECT, vangers-srv/src/server/callback/create_object.rs. Log records are left out.
pub mod Approval
pub mod Created
pub mod Inserted
pub mod Atomic
use vangers_srv.Base.{
  ℕ, Bool, true, false, ◌==◌, Option, none, some, List, if◌then◌else◌, lookup, insert, Result, ok,
  err, panic, map_err,
}
use vangers_srv.Base.Exec
use vangers_srv.Base.Exec.{Exec, pure, lift, inspect, gets, convert, for_each, ◌>>=◌, ◌>>◌}
use vangers_srv.Protocol.{Packet, new}
use vangers_srv.Protocol.Actions.{Action}
use vangers_srv.Vanject.{Vanject, create_from_slice, vanject_bytes, get_type}
use vangers_srv.Vanject.Nid
use vangers_srv.Vanject.Ids.{get_world, is_non_global_vanject}
use vangers_srv.Player.{Player, set_body}
use vangers_srv.Game.{Game, set_player}
use vangers_srv.Server.{Server, reliable, in_game, notify_player}
use vangers_srv.Server.Errors.{
  CreateObjectError, slice_to_vanject_parse, player_not_found, OnUpdateError, create_object_error,
  OnUpdateOk, complete,
}
use vangers_srv.Server.Callback.UpdateObject.{owned_by, state_packet, tell}
use Approval.{approve, replay_packets}

-- What comes of a request: packets of the object that is there, or a new object with the packet that
-- tells of it and whether it goes to a world, if there is one.
pub data Creation : Type 0 where
  replay : List Packet → Creation
  create : Vanject → Option (Packet × (Bool × ℕ)) → Creation

-- The player gets the position and the body of its VANGER. A body that does not parse is dropped, and
-- then nobody is told.
unfoldable pub move_vanger : {E : Type 0} → ℕ → Player → Vanject → Exec Game E Creation
move_vanger client_id player v = do
  Exec.update λ (g : Game). record g {
    players = set_player client_id (record player { pos = v.pos }) g.players;
  }
  (dressed, fits) ← lift (set_body (record player { pos = v.pos }) v.body)
  Exec.update λ (g : Game). record g { players = set_player client_id dressed g.players }
  if fits
      then (do
        packet ← lift (new Action.update_object (vanject_bytes v))
        pure (create v (some (packet, (true, get_world v.id)))))
      else pure (create v none)

-- What is done before the others are told, for a new object that is bound to the player.
unfoldable pub announce : {E : Type 0} → ℕ → Player → Vanject → Exec Game E Creation
announce client_id player v =
    if get_type v == Nid.vanger then move_vanger client_id player v else (do
      packet ← lift (state_packet v)
      pure (create v (some (packet, (is_non_global_vanject v.id, get_world v.id)))))

-- What happens in the sender's game before the others are told.
unfoldable pub create_in_game : ℕ → Vanject → Exec Game CreateObjectError Creation
create_in_game client_id v = do
  found ← gets λ (g : Game). lookup v.id g.vanjects
  elim found [
    | some existing ↦ (do packets ← lift (replay_packets existing); pure (replay packets))
    | none ↦ (do
      (bind_id, player) ← inspect (approve client_id v)
      announce client_id player (owned_by bind_id v))
  ]

-- The others are told, if there is something to tell.
unfoldable pub tell_created :
    {E : Type 0} → ℕ → Option (Packet × (Bool × ℕ)) → Exec Server E (Unit {0})
tell_created client_id none = pure tt
tell_created client_id (some told) = tell reliable client_id told

-- `self.get_mut_game_by_clientid(client_id).unwrap().vanjects.insert(vanject.id, vanject)`
unfoldable pub insert_object : {E : Type 0} → ℕ → Vanject → Exec Server E (Unit {0})
insert_object client_id v =
    in_game client_id panic
      (Exec.update λ (g : Game). record g { vanjects = insert v.id v g.vanjects })

-- The object is inserted after the others were told.
unfoldable pub finish : {E : Type 0} → ℕ → Creation → Exec Server E (Unit {0})
finish client_id (replay packets) = for_each (λ p. notify_player client_id p) packets
finish client_id (create v told) = do tell_created client_id told; insert_object client_id v

-- `create_object`
unfoldable pub create_object : ℕ → Packet → Exec Server OnUpdateError OnUpdateOk
create_object client_id packet = do
  v ← lift (
      map_err (λ e. create_object_error (slice_to_vanject_parse e))
        (create_from_slice packet.bytes))
  creation ←
      convert create_object_error
        (in_game client_id (err (player_not_found client_id)) (create_in_game client_id v))
  finish client_id creation
  pure complete
