-- ===== src/Server/Callback/SetPosition.antt =====
-- SET_POSITION, vangers-srv/src/server/callback/set_position.rs.
pub mod Moved
use vangers_srv.Base.{ℕ, none, some, ◌==◌, length, word_at, err}
use vangers_srv.Base.Exec
use vangers_srv.Base.Exec.{Exec, pure, lift, require, gets, check, convert, ◌>>=◌, ◌>>◌}
use vangers_srv.Protocol.{Packet}
use vangers_srv.Player.{Player}
use vangers_srv.Game.{Game, get_player, set_player}
use vangers_srv.Server.{Server, in_game}
use vangers_srv.Server.Errors.{
  SetPositionError, invalid_payload_size, player_not_found, OnUpdateError, set_position_error,
  OnUpdateOk, complete,
}

-- A player in a world moves; one out of all worlds stays where it is.
unfoldable pub moved_to : ℕ → ℕ → ℕ → Player → Player
moved_to x y screen p = elim p.world [
  | none ↦ p
  | some w ↦ record p { pos = record { x = x; y = y }; screen_y_half_size = screen }
]

-- What happens in the sender's game.
unfoldable pub move_in_game : ℕ → ℕ → ℕ → ℕ → Exec Game SetPositionError (Unit {0})
move_in_game client_id x y screen = do
  found ← gets λ (g : Game). get_player client_id g.players
  player ← require found (player_not_found client_id)
  Exec.update λ (g : Game). record g {
    players = set_player client_id (moved_to x y screen player) g.players;
  }

-- `set_position`
unfoldable pub set_position : ℕ → Packet → Exec Server OnUpdateError OnUpdateOk
set_position client_id packet = do
  check (length packet.bytes == 6)
      (set_position_error (invalid_payload_size 6 (length packet.bytes)))
  x ← lift (word_at packet.bytes 0 2)
  y ← lift (word_at packet.bytes 2 2)
  screen ← lift (word_at packet.bytes 4 2)
  convert set_position_error
      (in_game client_id (err (player_not_found client_id)) (move_in_game client_id x y screen))
  pure complete
