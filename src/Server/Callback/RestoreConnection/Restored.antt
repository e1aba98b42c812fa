-- ===== src/Server/Callback/RestoreConnection/Restored.antt =====
-- Who gets a player by restoring a connection (callback/restore_connection.rs).
use vangers_srv.Base.{
  ℕ, ◌≡◌, refl, not, none, some, List, [], ◌∷◌, arith, ◌==◌, if◌then◌else◌, select, find, Map,
  length, word_at, byte_at, lookup, modify, lookup-modify, ok, Bool-cases, inl, inr,
}
use vangers_srv.Player.{Player}
use vangers_srv.Game.{Game}
use vangers_srv.Server.{Server}
use vangers_srv.Server.Callback.RestoreConnection.{
  has_bind, take_over, restore, drop_client, restore_connection,
}
use vangers_srv.Protocol.{Packet, new, try_i16}
use vangers_srv.Protocol.Actions.{Action}
use vangers_srv.Server.Errors.{OnUpdateError, response}

take_over_first :
    (player_id client_id : ℕ) (ps : List Player) (p : Player)
    → find (has_bind player_id) ps ≡ some p
    → ((take_over player_id client_id ps).0 ≡ some p.client_id)
      × (find (has_bind player_id) (take_over player_id client_id ps).1
          ≡ some (record p { client_id = client_id; disconnected_until = none }))
unfolding take_over
take_over_first player_id client_id [] p h = absurd (ground arith)
take_over_first player_id client_id (q ∷ ps) p h = elim (Bool-cases (has_bind player_id q)) [
  | inl e ↦ ground arith
  | inr e ↦ ground (arith, take_over_first player_id client_id ps p)
]

restored :
    (E : Type 0) (game_id player_id client_id : ℕ) (s : Server) (g : Game) (p : Player)
    → lookup game_id s.games ≡ some g
    → find (has_bind player_id) g.players ≡ some p
    → restore {E = E} game_id player_id client_id s ≡ (
      ok (some p.client_id),
      record s {
        games =
            modify game_id
              (λ g'. record g' { players = (take_over player_id client_id g.players).1 })
              s.games;
      },
    )
unfolding restore
restored E game_id player_id client_id s g p h found =
    rw (h, restore, (take_over_first player_id client_id g.players p found).0)

found_game :
    (players : List Player) (game_id : ℕ) (games : Map Game) (g : Game)
    → lookup game_id games ≡ some g
    → lookup game_id (modify game_id (λ g'. record g' { players = players }) games)
      ≡ some (record g { players = players })
found_game players game_id games g h =
    ground (arith, lookup-modify game_id game_id (λ g'. record g' { players = players }) games, h)

-- For a client that names the id of a game and the bind id of a player in it, whoever the client is,
-- the handler answers; the first player with the bind id is then the client's, without a deadline,
-- and the client that had the player before is dropped from the clients, if it is another one.
pub taken_over :
    (game_id player_id client_id : ℕ) (packet : Packet) (s : Server) (g : Game) (p : Player)
    → length packet.bytes ≡ 5
    → word_at {E = OnUpdateError} packet.bytes 0 4 ≡ ok game_id
    → byte_at {E = OnUpdateError} packet.bytes 4 ≡ ok player_id
    → lookup game_id s.games ≡ some g
    → find (has_bind player_id) g.players ≡ some p
    → let after = restore_connection client_id packet s in
      ((answer : Packet) × (new {E = OnUpdateError} Action.restore_connection_response (1 ∷ [])
          ≡ ok answer)
        × (after.0 ≡ ok (response answer)))
      × ((g' : Game) × (lookup game_id after.1.games ≡ some g')
          × (find (has_bind player_id) g'.players
              ≡ some (record p { client_id = client_id; disconnected_until = none })))
      × (after.1.clients ≡ (
          if p.client_id == client_id
          then s.clients
          else select (λ c. not (c.id == p.client_id)) s.clients))
unfolding restore_connection drop_client new try_i16
taken_over game_id player_id client_id packet s g p size word byte h found =
    rw (size, word, byte, restored OnUpdateError game_id player_id client_id s g p h found)
      (
        (_, refl, refl),
        (
          record g { players = (take_over player_id client_id g.players).1 },
          found_game (take_over player_id client_id g.players).1 game_id s.games g h,
          (take_over_first player_id client_id g.players p found).1,
        ),
        refl,
      )
