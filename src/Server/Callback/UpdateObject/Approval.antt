-- ===== src/Server/Callback/UpdateObject/Approval.antt =====
-- The checks of UPDATE_OBJECT against the game, vangers-srv/src/server/callback/update_object.rs.
-- They only read.
use vangers_srv.Base.{
  ℕ, not, ◌&&◌, ◌==◌, Option, none, some, if◌then◌else◌, lookup, Result, ok, err, ok_or, unwrap,
  guard, ◌>>=◌, ◌>>◌,
}
use vangers_srv.Vanject.{Vanject}
use vangers_srv.Vanject.Ids.{get_world, is_non_global_vanject, is_non_static}
use vangers_srv.Player.{World}
use vangers_srv.Game.{Game, get_player}
use vangers_srv.Server.Errors.{
  UpdateObjectError, vanject_not_found, player_not_bind, player_world_empty, wrong_world, not_owner,
}

-- A player out of all worlds, and one in another world, may not update an object of a world.
unfoldable pub approve_world : ℕ → ℕ → Option World → Vanject → Result UpdateObjectError (Unit {0})
approve_world client_id vanject_id none v =
    if is_non_global_vanject v.id then err (player_world_empty client_id) else ok tt
approve_world client_id vanject_id (some w) v =
    if is_non_global_vanject v.id
    then guard (w.id == get_world v.id) (wrong_world vanject_id (get_world v.id) w.id)
    else ok tt

-- The checks; the result is the player's bind id and the object.
unfoldable pub approve : ℕ → ℕ → Game → Result UpdateObjectError (ℕ × Vanject)
approve client_id vanject_id g = do
  player ← unwrap (get_player client_id g.players)
  bind_id ← ok_or player.bind (player_not_bind client_id)
  v ← ok_or (lookup vanject_id g.vanjects) (vanject_not_found vanject_id)
  approve_world client_id vanject_id player.world v
  guard
      (not
        (is_non_global_vanject v.id && (is_non_static v.id && not (v.player_bind_id == bind_id))))
      (not_owner vanject_id bind_id)
  ok (bind_id, v)
