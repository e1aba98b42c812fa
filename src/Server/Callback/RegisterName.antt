-- ===== src/Server/Callback/RegisterName.antt =====
-- REGISTER_NAME, vangers-srv/src/server/callback/register_name.rs. A name and a password are kept with
-- the null byte that closes them.
pub mod Names
pub mod Bounds
pub mod Safe
use vangers_srv.Base.{ℕ, List, [], ◌∷◌, ◌++◌, err}
use vangers_srv.Base.Exec
use vangers_srv.Base.Exec.{Exec, pure, lift, require, expect, gets, convert, ◌>>=◌, ◌>>◌}
use vangers_srv.Protocol.{Packet, create_answer}
use vangers_srv.Player.{Player, set_auth}
use vangers_srv.Game.{Game, get_player, set_player}
use vangers_srv.Server.{Server, reliable, in_game, notify_game}
use vangers_srv.Server.Errors.{
  RegisterNameError, player_not_found, player_not_bind, OnUpdateError, register_name_error,
  OnUpdateOk, complete,
}
use Names.{extract_auth_data}

-- What happens in the sender's game. The name is never empty, so none is made up for it.
unfoldable pub name_player : ℕ → List ℕ → Exec Game RegisterNameError (ℕ × List ℕ)
name_player client_id bytes = do
  found ← gets λ (g : Game). get_player client_id g.players
  player ← require found (player_not_found client_id)
  bind_id ← require player.bind (player_not_bind client_id)
  (login, pwd) ← lift (extract_auth_data bytes)
  named ← lift (set_auth [] player login pwd)
  Exec.update λ (g : Game). record g { players = set_player client_id named g.players }
  pure (bind_id, login)

-- `register_name`
unfoldable pub register_name : ℕ → Packet → Exec Server OnUpdateError OnUpdateOk
register_name client_id packet = do
  (bind_id, login) ←
      convert register_name_error
        (in_game client_id (err (player_not_found client_id)) (name_player client_id packet.bytes))
  told ← expect (create_answer packet (bind_id ∷ login))
  notify_game reliable client_id told
  pure complete
