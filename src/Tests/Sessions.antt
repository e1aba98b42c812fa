-- ===== src/Tests/Sessions.antt =====
-- Players that leave and connections that close, and the tables of the scene (server/callback/*.rs).
use vangers_srv.Base.{
  ℕ, not, find, select, word_at, byte_at, [], ◌∷◌, ◌++◌, ◌≡◌, refl, to_le, lookup, some, none, ok,
  map, if◌then◌else◌, ◌==◌, passes, IsMap,
}
use vangers_srv.Protocol.{Packet, new}
use vangers_srv.Server.Errors.{OnUpdateError, response}
use vangers_srv.Server.Callback.SetPosition.{move_in_game}
use vangers_srv.Server.Callback.SetPosition.Moved.{move_in_game_ok}
use vangers_srv.Server.Callback.RestoreConnection.{has_bind, restore_connection}
use vangers_srv.Server.Callback.RestoreConnection.Restored.{taken_over}
use vangers_srv.Protocol.Actions.{Action}
use vangers_srv.Game.{Game, get_player}
use vangers_srv.Server.Callback.LeaveWorld.{leave_in_game, to_delete, should_delete_on_leave_world}
use vangers_srv.Server.Callback.LeaveWorld.Cleared.{left, goes}
use vangers_srv.Server.Errors.{CloseSocketError}
use vangers_srv.Server.Callback.CloseSocket.{close_in_game, remove_player}
use vangers_srv.Server.Callback.CloseSocket.Closed.{
  farewell, farewell_snapshot, of_bind, latest, close_game,
}
use vangers_srv.Tests.Scene.{game, server, alice, world, request}

game-IsMap : IsMap game.vanjects
unfolding lookup
game-IsMap = (refl, (refl, tt))

alice_found : get_player 11 game.players ≡ some alice
unfolding get_player
alice_found = refl

-- Alice leaves: her slot goes with her, and the stuff stays in the world.
left_example :
    ((leave_in_game 11 game).0 ≡ ok (1, map (goes 1) (to_delete 1 game.vanjects)))
    × (get_player 11 (leave_in_game 11 game).1.players ≡ some (record alice { world = none }))
    × ((id : ℕ)
        → lookup id (leave_in_game 11 game).1.vanjects ≡ (
            if passes (should_delete_on_leave_world 1) (lookup id game.vanjects)
            then none
            else lookup id game.vanjects))
left_example = left 11 game alice 1 world game-IsMap alice_found refl refl

close_game_example :
    ((close_in_game 11 game).0 ≡ ok (farewell 1 alice))
    × (get_player 22 (remove_player {E = CloseSocketError} 11 (close_in_game 11 game).1).1.players
        ≡ (if 22 == 11 then none else get_player 22 game.players))
    × ((remove_player {E = CloseSocketError} 11 (close_in_game 11 game).1).1.vanjects
        ≡ game.vanjects)
    × (of_bind 1
          (remove_player {E = CloseSocketError} 11 (close_in_game 11 game).1).1.removed_players
        ≡ (if 1 == 1
            then latest (farewell_snapshot 1 alice) (of_bind 1 game.removed_players)
            else of_bind 1 game.removed_players))
close_game_example = close_game 11 22 1 game alice 1 alice_found refl

abbrev restoring : Packet
restoring = request Action.restore_connection (to_le 4 1 ++ 1 ∷ [])

bytes_game : word_at {E = OnUpdateError} restoring.bytes 0 4 ≡ ok 1
unfolding word_at
bytes_game = refl

bytes_player : byte_at {E = OnUpdateError} restoring.bytes 4 ≡ ok 1
unfolding byte_at
bytes_player = refl

server_game : lookup 1 server.games ≡ some game
unfolding lookup
server_game = refl

alice_bound : find (has_bind 1) game.players ≡ some alice
alice_bound = refl

-- A stranger names Alice's game and slot.
taken_over_example :
    let after = restore_connection 33 restoring server in
    ((answer : Packet) × (new {E = OnUpdateError} Action.restore_connection_response (1 ∷ [])
        ≡ ok answer)
      × (after.0 ≡ ok (response answer)))
    × ((g' : Game) × (lookup 1 after.1.games ≡ some g')
        × (find (has_bind 1) g'.players
            ≡ some (record alice { client_id = 33; disconnected_until = none })))
    × (after.1.clients
        ≡ (if 11 == 33 then server.clients else select (λ c. not (c.id == 11)) server.clients))
taken_over_example =
    taken_over 1 1 33 restoring server game alice refl bytes_game bytes_player server_game
      alice_bound

move_in_game_ok_example :
    let after = move_in_game 11 300 400 50 game in
    (after.0 ≡ ok tt)
    × (get_player 22 after.1.players ≡ (
        if 22 == 11
        then some (elim alice.world [
          | none ↦ alice
          | some _ ↦ record alice { pos = record { x = 300; y = 400 }; screen_y_half_size = 50 }
        ])
        else get_player 22 game.players))
    × (record after.1 { players = game.players } ≡ game)
move_in_game_ok_example = move_in_game_ok 11 22 300 400 50 game alice alice_found
