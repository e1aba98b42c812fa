-- ===== src/Server/Callback/SetPlayerData.antt =====
-- SET_PLAYER_DATA, vangers-srv/src/server/callback/set_player_data.rs.
use vangers_srv.Base.{ℕ, List, ◌∷◌, err}
use vangers_srv.Base.Exec
use vangers_srv.Base.Exec.{Exec, pure, lift, require, expect, gets, check, convert, ◌>>=◌, ◌>>◌}
use vangers_srv.Protocol.{Packet}
use vangers_srv.Player.{set_body}
use vangers_srv.Game.{Game, get_player, set_player, get_gmtype}
use vangers_srv.Server.{Server, reliable, in_game, notify_game}
use vangers_srv.Server.Errors.{
  SetPlayerDataError, player_not_found, player_not_bind, slice_to_body_parse, OnUpdateError,
  set_player_data_error, OnUpdateOk, complete,
}
use vangers_srv.Server.Callback.Answers.{answer}

-- What happens in the sender's game. The body is written also when the slice is no body, and then it is
-- dropped; the result is the bind id.
unfoldable pub dress : ℕ → List ℕ → Exec Game SetPlayerDataError ℕ
dress client_id bytes = do
  g ← gets λ (g : Game). g
  player ← expect (get_player client_id g.players)
  (dressed, fits) ← lift (set_body player bytes)
  Exec.update λ (g' : Game). record g' { players = set_player client_id dressed g'.players }
  check fits (slice_to_body_parse (get_gmtype g))
  require player.bind (player_not_bind client_id)

-- `set_player_data`
unfoldable pub set_player_data : ℕ → Packet → Exec Server OnUpdateError OnUpdateOk
set_player_data client_id packet = do
  player_id ←
      convert set_player_data_error
        (in_game client_id (err (player_not_found client_id)) (dress client_id packet.bytes))
  told ← answer packet (player_id ∷ packet.bytes)
  notify_game reliable client_id told
  pure complete
