-- ===== src/Server/Callback/SetWorld.antt =====
-- SET_WORLD, vangers-srv/src/server/callback/set_world.rs. Log records are left out.
pub mod Snapshot
pub mod Shown
pub mod Entered
use vangers_srv.Base.{
  ℕ, Bool, true, false, not, Option, none, some, List, [], ◌∷◌, ◌++◌, ◌==◌, if◌then◌else◌, find,
  byte_at, word_at, Result, ok, err, panic,
}
use vangers_srv.Base.Exec
use vangers_srv.Base.Exec.{
  Exec, pure, lift, require, expect, gets, check, convert, for_each, ◌>>=◌, ◌>>◌,
}
use vangers_srv.Protocol.{Packet, new, create_answer}
use vangers_srv.Protocol.Actions.{Action}
use vangers_srv.Player.{World, Player, gaming, status_code}
use vangers_srv.Game.{Game, get_player, place_player}
use vangers_srv.Server.{
  Server, reliable, find_game, in_game, notify_player, notify_game, notify_all,
}
use vangers_srv.Server.Errors.{
  SetWorldError, player_not_found, player_not_bind, invalid_world_size, OnUpdateError,
  set_world_error, OnUpdateOk, complete,
}
use vangers_srv.Server.Callback.LeaveWorld.{leave_world}
use vangers_srv.Server.Callback.TotalPlayersDataQuery.{total_players_data_packet}
use Snapshot.{snapshot, snapshot_packets}

-- Whether the player is in another world.
unfoldable pub needs_leave_world : ℕ → ℕ → Server → Bool
unfolding find_game get_player
needs_leave_world client_id world_id s = elim (find_game client_id s.games) [
  | none ↦ false
  | some (k, g) ↦ elim (get_player client_id g.players) [
    | none ↦ false
    | some p ↦ elim p.world [ none ↦ false | some w ↦ not (w.id == world_id) ]
  ]
]

unfoldable pub leave_other_world : ℕ → ℕ → Exec Server OnUpdateError (Unit {0})
leave_other_world client_id world_id = do
  leaves ← gets (needs_leave_world client_id world_id)
  if leaves then (leave_world client_id >> pure tt) else pure tt

-- The world that is asked for, which has the size that is asked for or is new; the flag says that it
-- is new.
unfoldable pub enter : ℕ → ℕ → Exec Game SetWorldError (World × ℕ)
enter world_id y_size = do
  found ← gets λ (g : Game). find (λ w. w.id == world_id) g.worlds
  elim found [
    | some w ↦ (do check (w.y_size == y_size) (invalid_world_size w.y_size y_size); pure (w, 0))
    | none ↦ (do
      Exec.update λ (g : Game). record g {
        worlds = g.worlds ++ record { id = world_id; y_size = y_size } ∷ [];
      }
      pure (record { id = world_id; y_size = y_size }, 1))
  ]

-- The packets of an entry: the one that tells that the player plays now, the one that tells its world,
-- the answer, and those of the snapshot in their order.
pub record Entry : Type 0 where
  pub status : Option Packet
  pub world : Packet
  pub answer : Packet
  pub shown : List Packet

-- The packet that tells that the player plays now.
unfoldable pub status_packet : {E : Type 0} → Bool → ℕ → Result E (Option Packet)
status_packet false bind_id = ok none
status_packet true bind_id = elim (new Action.players_status (bind_id ∷ status_code gaming ∷ [])) [
  | ok p ↦ ok (some p)
  | err e ↦ err e
  | panic ↦ panic
]

-- The packets, once the player stands in the world.
unfoldable pub entry : {E : Type 0} → Packet → ℕ → ℕ → ℕ → List Packet → Bool → Exec Game E Entry
entry packet bind_id world_id world_status objects started = do
  status ← lift (status_packet started bind_id)
  world ← lift (new Action.players_world (bind_id ∷ world_id ∷ []))
  answer ← expect (create_answer packet (world_id ∷ world_status ∷ []))
  begin ← lift (new Action.world_snapshot_begin (world_id ∷ []))
  g ← gets λ (g : Game). g
  players ← lift (total_players_data_packet g)
  end_packet ← lift (new Action.world_snapshot_end (world_id ∷ []))
  pure (record {
    status = status;
    world = world;
    answer = answer;
    shown = begin ∷ players ∷ (objects ++ end_packet ∷ []);
  })

-- The player is put into the world.
unfoldable pub place : {E : Type 0} → ℕ → World → Exec Game E Bool
place client_id w = do
  g ← gets λ (g : Game). g
  (started, g') ← lift (place_player g client_id w)
  Exec.update λ (h : Game). g'
  pure started

-- What happens in the sender's game before anybody is told.
unfoldable pub set_world_in_game : ℕ → Packet → ℕ → ℕ → Exec Game SetWorldError Entry
set_world_in_game client_id packet world_id y_size = do
  (w, world_status) ← enter world_id y_size
  found ← gets λ (g : Game). get_player client_id g.players
  player ← expect found
  bind_id ← require player.bind (player_not_bind client_id)
  vanjects ← gets λ (g : Game). g.vanjects
  objects ← lift (snapshot_packets (snapshot world_id bind_id vanjects))
  started ← place client_id w
  entry packet bind_id world_id world_status objects started

unfoldable pub tell_started : {E : Type 0} → ℕ → Option Packet → Exec Server E (Unit {0})
tell_started client_id none = pure tt
tell_started client_id (some p) = notify_all client_id p

-- The others and the player are told.
unfoldable pub tell_entry : {E : Type 0} → ℕ → Entry → Exec Server E (Unit {0})
tell_entry client_id e = do
  tell_started client_id e.status
  notify_game reliable client_id e.world
  notify_player client_id e.answer
  for_each (λ p. notify_player client_id p) e.shown

-- `set_world`
unfoldable pub set_world : ℕ → Packet → Exec Server OnUpdateError OnUpdateOk
set_world client_id packet = do
  world_id ← lift (byte_at packet.bytes 0)
  y_size ← lift (word_at packet.bytes 1 2)
  leave_other_world client_id world_id
  e ← convert set_world_error (
      in_game client_id (err (player_not_found client_id))
        (set_world_in_game client_id packet world_id y_size))
  tell_entry client_id e
  pure complete
