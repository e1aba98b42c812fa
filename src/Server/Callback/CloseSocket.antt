-- ===== src/Server/Callback/CloseSocket.antt =====
-- CLOSE_SOCKET, vangers-srv/src/server/callback/close_socket.rs.
pub mod Leaver
pub mod Closed
pub mod Tables
use vangers_srv.Base.{
  ℕ, Bool, true, false, not, Option, none, some, List, [], ◌∷◌, ◌++◌, ◌==◌, if◌then◌else◌, select,
  remove, Result, ok, err, panic,
}
use vangers_srv.Base.Exec
use vangers_srv.Base.Exec.{Exec, pure, lift, inspect, convert, ◌>>=◌, ◌>>◌}
use vangers_srv.Protocol.{Packet, new}
use vangers_srv.Protocol.Actions.{Action}
use vangers_srv.Player.{Player, Status, gaming, finished, status_code}
use vangers_srv.Game.{Game, RemovedPlayer, set_player, removed_player, is_not_gaming}
use vangers_srv.Server.{Server, reliable, in_game, notify_game}
use vangers_srv.Server.Errors.{
  LeaveWorldError, world_empty, CloseSocketError, player_not_found, OnUpdateError,
  leave_world_error, close_socket_error, OnUpdateOk, complete,
}
use vangers_srv.Server.Callback.LeaveWorld.{leave_world}
use Leaver.{bound_player}

-- A player that is in no world already is no reason to stop.
unfoldable pub absorb_world_empty :
    Result OnUpdateError OnUpdateOk → Result OnUpdateError (Unit {0})
absorb_world_empty (ok r) = ok tt
absorb_world_empty (err (leave_world_error (world_empty id))) = ok tt
absorb_world_empty (err e) = err e
absorb_world_empty panic = panic

unfoldable pub leave_first : ℕ → Exec Server OnUpdateError (Unit {0})
leave_first client_id s = let (r, s') = leave_world client_id s in (absorb_world_empty r, s')

-- The player out of all worlds, and finished if it was gaming.
abbrev pub finished_player : Player → Player
finished_player p = record p {
  world = none;
  status = if is_not_gaming p.status then p.status else finished;
}

-- The snapshot of a player takes the place of an earlier one of its bind id.
unfoldable pub keep_snapshot : Option RemovedPlayer → List RemovedPlayer → List RemovedPlayer
keep_snapshot none rs = rs
keep_snapshot (some r) rs = select (λ q. not (q.bind_id == r.bind_id)) rs ++ r ∷ []

-- The packet that tells that the player finished, if it was gaming.
unfoldable pub finished_packet : {E : Type 0} → ℕ → Player → Result E (Option Packet)
finished_packet bind_id p =
    if is_not_gaming p.status
    then ok none
    else elim (new Action.players_status (bind_id ∷ status_code finished ∷ [])) [
      | ok packet ↦ ok (some packet)
      | err e ↦ err e
      | panic ↦ panic
    ]

-- The writes to the player and the snapshots.
unfoldable pub close_player : {E : Type 0} → ℕ → ℕ → Player → Exec Game E (Option Packet)
close_player client_id bind_id player = do
  Exec.update
      λ (g : Game). record g { players = set_player client_id (finished_player player) g.players }
  packet ← lift (finished_packet bind_id player)
  Exec.update λ (g : Game). record g {
    removed_players = keep_snapshot (removed_player (finished_player player)) g.removed_players;
  }
  pure packet

-- What happens in the sender's game before the others are told.
unfoldable pub close_in_game : ℕ → Exec Game CloseSocketError (Option Packet)
close_in_game client_id = do
  (bind_id, player) ← inspect (bound_player client_id)
  close_player client_id bind_id player

unfoldable pub tell_finished : {E : Type 0} → ℕ → Option Packet → Exec Server E (Unit {0})
tell_finished client_id none = pure tt
tell_finished client_id (some packet) = notify_game reliable client_id packet

abbrev pub is_empty : List Player → Bool
is_empty [] = true
is_empty (p ∷ ps) = false

-- The player is taken out; the result is the game's id if nobody is left.
unfoldable pub remove_player : {E : Type 0} → ℕ → Exec Game E (Option ℕ)
remove_player client_id = do
  Exec.update
      λ (g : Game). record g { players = select (λ p. not (p.client_id == client_id)) g.players }
  Exec.gets λ (g : Game). if is_empty g.players then some g.id else none

unfoldable pub drop_game : {E : Type 0} → Option ℕ → Exec Server E (Unit {0})
drop_game none = pure tt
drop_game (some id) = Exec.update λ (s : Server). record s { games = remove id s.games }

-- `close_socket`
unfoldable pub close_socket : ℕ → Exec Server OnUpdateError OnUpdateOk
close_socket client_id = do
  leave_first client_id
  packet ←
      convert close_socket_error
        (in_game client_id (err (player_not_found client_id)) (close_in_game client_id))
  tell_finished client_id packet
  empty ← in_game client_id panic (remove_player client_id)
  drop_game empty
  pure complete
