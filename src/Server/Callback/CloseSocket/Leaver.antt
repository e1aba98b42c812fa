-- ===== src/Server/Callback/CloseSocket/Leaver.antt =====
-- The player whose connection closes, vangers-srv/src/server/callback/close_socket.rs.
use vangers_srv.Base.{ℕ, Result, ok, ok_or, unwrap, ◌>>=◌}
use vangers_srv.Player.{Player}
use vangers_srv.Game.{Game, get_player}
use vangers_srv.Server.Errors.{CloseSocketError, player_not_bind}

-- The player with its bind id; without a bind an error.
unfoldable pub bound_player : ℕ → Game → Result CloseSocketError (ℕ × Player)
bound_player client_id g = do
  player ← unwrap (get_player client_id g.players)
  bind_id ← ok_or player.bind (player_not_bind client_id)
  ok (bind_id, player)
