-- ===== src/Server/Running.antt =====
-- The server's loop, vangers-srv/src/server/server.rs: what it does on each event.
pub mod Valid
use vangers_srv.Base.{
  ℕ, ◌+◌, ◌≤◌, Bool, false, not, none, some, List, [], ◌∷◌, ◌++◌, leb, ◌==◌, if◌then◌else◌, select,
  Map, ok, err, panic,
}
use vangers_srv.Base.Exec
use vangers_srv.Base.Exec.{Exec, pure, for_each}
use vangers_srv.Player.{Player}
use vangers_srv.Game.{Game, get_player, set_player}
use vangers_srv.Server.{
  Server, Client, Connection, connected, authenticated, disconnected, updated, in_game, client_ids,
}
use vangers_srv.Server.Errors.{OnUpdateError}
use vangers_srv.Server.OnUpdate.{on_update}
use vangers_srv.Server.Callback.CloseSocket.{close_socket}

-- `DISCONNECTED_PLAYER_TTL`, in seconds
abbrev pub disconnected_player_ttl : ℕ
disconnected_player_ttl = 60

-- The write of a deadline to the player of the client.
unfoldable pub mark : ℕ → ℕ → Game → Game
mark client_id deadline g = elim (get_player client_id g.players) [
  | none ↦ g
  | some p ↦ record g {
    players = set_player client_id (record p { disconnected_until = some deadline }) g.players;
  }
]

-- `mark_player_disconnected`
unfoldable pub mark_player_disconnected : ℕ → Exec Server OnUpdateError (Unit {0})
mark_player_disconnected client_id s =
    in_game client_id (ok tt) (Exec.update (mark client_id (s.now + disconnected_player_ttl))) s

-- The deadline of the player has come.
abbrev pub is_expired : ℕ → Player → Bool
is_expired now p = elim p.disconnected_until [ none ↦ false | some deadline ↦ leb deadline now ]

-- The clients of the players whose deadline has come, in all games.
unfoldable pub expired : ℕ → Map Game → List ℕ
expired now [] = []
expired now ((k, g) ∷ games) = client_ids (select (is_expired now) g.players) ++ expired now games

-- Closing the connection of a client; an error is only logged.
unfoldable pub close : ℕ → Exec Server OnUpdateError (Unit {0})
close client_id s =
    let (r, s') = close_socket client_id s in
    elim r [ panic ↦ (panic, s') | ok _ ↦ (ok tt, s') | err _ ↦ (ok tt, s') ]

-- `expire_disconnected_players`
unfoldable pub expire_disconnected_players : Exec Server OnUpdateError (Unit {0})
expire_disconnected_players s = for_each close (expired s.now s.games) s

-- What the loop is woken by: a second that passed, a new client, and what a client's tasks tell.
pub data Event : Type 0 where
  tick : Event
  add : Client → Event
  told : ℕ → Connection → Event

-- The first client of the id gets the connection, and its protocol's version.
unfoldable pub connect : ℕ → Connection → List Client → List Client
connect client_id c [] = []
connect client_id c (k ∷ ks) =
    let rest = connect client_id c ks in
    if k.id == client_id
    then record k { connection = c; protocol = elim c [ authenticated v ↦ v | _ ↦ k.protocol ] }
      ∷ ks
    else k ∷ rest

-- `MpscData`
unfoldable pub hear : ℕ → Connection → Exec Server OnUpdateError (Unit {0})
hear client_id disconnected s =
    let (r, s') = mark_player_disconnected client_id s in
    (r, record s' { clients = select (λ c. not (c.id == client_id)) s'.clients })
hear client_id (updated p) s = on_update client_id p s
hear client_id connected s = (ok tt, record s { clients = connect client_id connected s.clients })
hear client_id (authenticated v) s =
    (ok tt, record s { clients = connect client_id (authenticated v) s.clients })

-- One round of the loop.
unfoldable pub handle : Event → Exec Server OnUpdateError (Unit {0})
handle tick s = expire_disconnected_players s
handle (add c) s = (ok tt, record s { clients = s.clients ++ c ∷ [] })
handle (told client_id c) s = hear client_id c s

-- A new server.
abbrev pub new_server : ℕ → Server
new_server unix = record {
  games = [];
  games_id_uniq = 0;
  clients = [];
  sent = [];
  now = 0;
  unix = unix;
}

-- The states that the loop reaches from a new server: time passes, and events come in any order.
pub data Reachable : Server → Type 0 where
  start : (unix : ℕ) → Reachable (new_server unix)
  wait :
      {s : Server} (now unix : ℕ)
      → Reachable s
      → s.now ≤ now
      → Reachable (record s { now = now; unix = unix })
  round : {s : Server} (e : Event) → Reachable s → Reachable (handle e s).1
