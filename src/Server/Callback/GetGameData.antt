-- ===== src/Server/Callback/GetGameData.antt =====
-- GET_GAME_DATA, vangers-srv/src/server/callback/get_game_data.rs.
use vangers_srv.Base.{ℕ, ◌++◌}
use vangers_srv.Base.Exec.{Exec, require, gets, ◌>>=◌}
use vangers_srv.Protocol.{Packet}
use vangers_srv.Game.Config.{config_bytes}
use vangers_srv.Server.{Server, find_game}
use vangers_srv.Server.Errors.{
  player_not_found, not_configured, OnUpdateError, get_game_data_error, OnUpdateOk,
}
use vangers_srv.Server.Callback.Answers.{respond}

-- `get_game_data`
unfoldable pub get_game_data : ℕ → Packet → Exec Server OnUpdateError OnUpdateOk
get_game_data client_id packet = do
  found ← gets λ (s : Server). find_game client_id s.games
  (k, g) ← require found (get_game_data_error (player_not_found client_id))
  config ← require g.config (get_game_data_error (not_configured g.id))
  respond packet (g.name ++ config_bytes config)
