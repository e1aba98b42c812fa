-- ===== src/Server/Callback/LeaveWorld/Leaver.antt =====
-- The player that leaves a world, vangers-srv/src/server/callback/leave_world.rs.
use vangers_srv.Base.{ℕ, Result, ok, ok_or, unwrap, ◌>>=◌}
use vangers_srv.Player.{Player}
use vangers_srv.Game.{Game, get_player}
use vangers_srv.Server.Errors.{LeaveWorldError, player_not_bind, world_empty}

-- The player with its bind id; without a bind, or out of all worlds, an error.
unfoldable pub leaver : ℕ → Game → Result LeaveWorldError (ℕ × Player)
leaver client_id g = do
  player ← unwrap (get_player client_id g.players)
  bind_id ← ok_or player.bind (player_not_bind client_id)
  world ← ok_or player.world (world_empty client_id)
  ok (bind_id, player)
