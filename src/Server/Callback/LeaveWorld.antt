-- ===== src/Server/Callback/LeaveWorld.antt =====
-- LEAVE_WORLD, vangers-srv/src/server/callback/leave_world.rs. Log records and the counts that only
-- they read are left out. The packets go out in the order of the map, which Rust leaves open.
pub mod Leaver
pub mod Cleared
use vangers_srv.Base.{
  ℕ, Bool, not, ◌&&◌, ◌||◌, ◌==◌, Option, none, List, [], ◌∷◌, ◌++◌, to_le, select, contains_key,
  retain_keys, Map, Result, ok, err, panic,
}
use vangers_srv.Base.Exec
use vangers_srv.Base.Exec.{Exec, pure, lift, inspect, gets, convert, for_each, ◌>>=◌, ◌>>◌}
use vangers_srv.Protocol.{Packet, new}
use vangers_srv.Protocol.Actions.{Action}
use vangers_srv.Vanject.{Vanject}
use vangers_srv.Vanject.Ids.{
  get_station, is_private_vanject, is_non_global_vanject, is_players_vanject,
}
use vangers_srv.Player.{Player}
use vangers_srv.Game.{Game, set_player}
use vangers_srv.Server.{Server, reliable, in_game, notify_game}
use vangers_srv.Server.Errors.{
  LeaveWorldError, player_not_found, OnUpdateError, leave_world_error, OnUpdateOk, complete,
}
use Leaver.{leaver}

-- `should_delete_on_leave_world`
unfoldable pub should_delete_on_leave_world : ℕ → Vanject → Bool
should_delete_on_leave_world player_bind_id v =
    let is_players_inventory_object =
      is_non_global_vanject v.id
      && (is_players_vanject v.id && v.player_bind_id == player_bind_id) in
    let is_private_station_object = get_station v.id == player_bind_id && is_private_vanject v.id in
    is_players_inventory_object || is_private_station_object

-- The packet of an object that goes.
unfoldable pub deleted_packet : {E : Type 0} → ℕ → ℕ → Vanject → Result E Packet
deleted_packet player_bind_id id v =
    new Action.delete_object (to_le 4 id ++ (player_bind_id ∷ to_le 4 v.time))

unfoldable pub deleted_packets : {E : Type 0} → ℕ → Map Vanject → Result E (List Packet)
deleted_packets player_bind_id [] = ok []
deleted_packets player_bind_id ((id, v) ∷ m) =
    let rest = deleted_packets player_bind_id m in
    elim (deleted_packet player_bind_id id v) [
      | ok p ↦ elim rest [ ok ps ↦ ok (p ∷ ps) | err e ↦ err e | panic ↦ panic ]
      | err e ↦ err e
      | panic ↦ panic
    ]

-- The objects that go, as the table `delete` of the code.
abbrev pub to_delete : ℕ → Map Vanject → Map Vanject
to_delete player_bind_id m = select (λ e. should_delete_on_leave_world player_bind_id e.1) m

-- The two writes of a player that leaves, with the packets that are built between them.
unfoldable pub clear : {E : Type 0} → ℕ → ℕ → Player → Exec Game E (ℕ × List Packet)
clear client_id bind_id player = do
  Exec.update λ (g : Game). record g {
    players = set_player client_id (record player { world = none }) g.players;
  }
  delete ← gets λ (g : Game). to_delete bind_id g.vanjects
  packets ← lift (deleted_packets bind_id delete)
  Exec.update λ (g : Game). record g {
    vanjects = retain_keys (λ id. not (contains_key id delete)) g.vanjects;
  }
  pure (bind_id, packets)

-- What happens in the sender's game.
unfoldable pub leave_in_game : ℕ → Exec Game LeaveWorldError (ℕ × List Packet)
leave_in_game client_id = do
  (bind_id, player) ← inspect (leaver client_id)
  clear client_id bind_id player

-- The packets of the objects, and the one of the player, to the other players of the game.
unfoldable pub tell_left : {E : Type 0} → ℕ → ℕ × List Packet → Exec Server E (Unit {0})
tell_left client_id (bind_id, packets) = do
  for_each (λ p. notify_game reliable client_id p) packets
  packet ← lift (new Action.players_world (bind_id ∷ 0 ∷ []))
  notify_game reliable client_id packet

-- `leave_world`
unfoldable pub leave_world : ℕ → Exec Server OnUpdateError OnUpdateOk
leave_world client_id = do
  told ←
      convert leave_world_error
        (in_game client_id (err (player_not_found client_id)) (leave_in_game client_id))
  tell_left client_id told
  pure complete
