-- ===== src/Server/Callback/SetGameData.antt =====
-- SET_GAME_DATA, vangers-srv/src/server/callback/set_game_data.rs.
use vangers_srv.Base.{ℕ, not, List, ◌==◌, length, drop, until_nul, err, map_err}
use vangers_srv.Base.Exec
use vangers_srv.Base.Exec.{Exec, pure, lift, require, gets, check, convert, ◌>>=◌, ◌>>◌}
use vangers_srv.Protocol.{Packet}
use vangers_srv.Game.{Game, is_configured, set_config}
use vangers_srv.Server.{Server, in_game}
use vangers_srv.Server.Errors.{
  SetGameDataError, name_parse, name_empty, slice_to_game_config_parse, player_not_found,
  already_configured, OnUpdateError, set_game_data_error, OnUpdateOk, complete,
}

-- What happens in the sender's game: the name, and behind it the configuration.
unfoldable pub configure : List ℕ → Exec Game SetGameDataError (Unit {0})
configure bytes = do
  g ← gets λ (g : Game). g
  check (not (is_configured g)) (already_configured g.id)
  name ← require (until_nul bytes) name_parse
  check (not (length name == 1)) name_empty
  configured ← lift (map_err slice_to_game_config_parse (set_config g (drop (length name) bytes)))
  Exec.update λ (g' : Game). record configured { name = name }

-- `set_game_data`
unfoldable pub set_game_data : ℕ → Packet → Exec Server OnUpdateError OnUpdateOk
set_game_data client_id packet = do
  convert set_game_data_error
      (in_game client_id (err (player_not_found client_id)) (configure packet.bytes))
  pure complete
