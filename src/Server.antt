-- ===== src/Server.antt =====
-- The server's state, the search for a client's game and the notifications,
-- vangers-srv/src/server/{server,games}.rs.
pub mod Errors
pub mod Callback
pub mod Lending
pub mod Notices
pub mod Tables
pub mod OnUpdate
pub mod Running
use vangers_srv.Base.{
  ℕ, ◌+◌, Bool, true, false, not, ◌&&◌, ◌||◌, Option, none, some, List, [], ◌∷◌, ◌++◌, map, ◌==◌,
  if◌then◌else◌, select, contains, Map, modify, Result, ok, err, panic, is_some,
}
use vangers_srv.Base.Exec.{Exec, convert}
use vangers_srv.Protocol.{Packet}
use vangers_srv.Player.{World, Player}
use vangers_srv.Game.{Game, get_player}

-- `Connection`: the state of a client, and what its tasks tell the server.
pub data Connection : Type 0 where
  connected : Connection
  authenticated : ℕ → Connection
  disconnected : Connection
  updated : Packet → Connection

-- `Client`, as far as the server's loop reads and writes it.
pub record Client : Type 0 where
  pub id : ℕ
  pub connection : Connection
  pub protocol : ℕ

-- The two ways to hand a packet to a client: `send` and `send_realtime_update`.
pub data Channel : Type 0 where
  reliable realtime : Channel

pub record Sent : Type 0 where
  pub to : ℕ
  pub channel : Channel
  pub packet : Packet

-- `Server`. `sent` has the packets that were handed to clients, in order. `now` is the number of seconds
-- since the server was started, and `unix` the system's clock in seconds.
pub record Server : Type 0 where
  pub games : Map Game
  pub games_id_uniq : ℕ
  pub clients : List Client
  pub sent : List Sent
  pub now : ℕ
  pub unix : ℕ

-- `Games::get_game_by_client_id`: the first game that has a player of the client, with its key.
unfoldable pub find_game : ℕ → Map Game → Option (ℕ × Game)
unfolding get_player
find_game client_id [] = none
find_game client_id ((k, g) ∷ games) =
    let rest = find_game client_id games in
    if is_some (get_player client_id g.players) then some (k, g) else rest

-- Code that holds the game of a client: what it does to the first game that has a player of the
-- client; without such a game the outcome is `missing`, an error or the panic of an `unwrap`.
unfoldable pub with_game : {E A : Type 0} → ℕ → Result E A → Exec Game E A → Exec (Map Game) E A
unfolding get_player
with_game client_id missing m [] = (missing, [])
with_game client_id missing m ((k, g) ∷ games) =
    let (r, games') = with_game client_id missing m games in
    let (q, g') = m g in
    if is_some (get_player client_id g.players) then (q, (k, g') ∷ games) else (r, (k, g) ∷ games')

-- `get_mut_game_by_clientid` and what is done with the game that it lends.
unfoldable pub in_game : {E A : Type 0} → ℕ → Result E A → Exec Game E A → Exec Server E A
unfolding with_game
in_game client_id missing m s =
    let (r, games') = with_game client_id missing m s.games in (r, record s { games = games' })

-- `self.clients.iter().filter(|c| client_ids.contains(&c.id)).for_each(|c| c.send(packet))`
unfoldable pub deliveries : Channel → Packet → List ℕ → List Client → List Sent
deliveries channel p ids [] = []
deliveries channel p ids (c ∷ cs) =
    let rest = deliveries channel p ids cs in
    if contains ids c.id then record { to = c.id; channel = channel; packet = p } ∷ rest else rest

abbrev pub client_ids : List Player → List ℕ
client_ids ps = map (λ p. p.client_id) ps

-- `notify` and `notify_realtime_update`: nothing happens for a client that is in no game.
unfoldable pub notify : {E : Type 0} → Channel → ℕ → Packet → (ℕ → Bool) → Exec Server E (Unit {0})
unfolding find_game deliveries
notify channel client_id p filter s = elim (find_game client_id s.games) [
  | none ↦ (ok tt, s)
  | some (k, g) ↦ (
    ok tt,
    record s {
      sent = s.sent ++ deliveries channel p (select filter (client_ids g.players)) s.clients;
    },
  )
]

-- `notify_player`, `notify_game`, `notify_game_realtime_update` and `notify_all`
abbrev pub notify_player : {E : Type 0} → ℕ → Packet → Exec Server E (Unit {0})
notify_player client_id p = notify reliable client_id p (λ id. id == client_id)

abbrev pub notify_game : {E : Type 0} → Channel → ℕ → Packet → Exec Server E (Unit {0})
notify_game channel client_id p = notify channel client_id p (λ id. not (id == client_id))

abbrev pub notify_all : {E : Type 0} → ℕ → Packet → Exec Server E (Unit {0})
notify_all client_id p = notify reliable client_id p (λ id. true)

-- `client_ids_in_world`, for a sender: the players whose world it is.
unfoldable pub client_ids_in_world : List Player → ℕ → ℕ → Bool → List ℕ
client_ids_in_world ps world_id sender_id include_sender = client_ids (
    select (λ p. include_sender || not (p.client_id == sender_id))
      (select (λ p. elim p.world [ none ↦ false | some w ↦ w.id == world_id ]) ps))

-- `notify_world` and `notify_world_realtime_update`
unfoldable pub notify_world :
    {E : Type 0} → Channel → ℕ → ℕ → Packet → Bool → Exec Server E (Unit {0})
unfolding find_game deliveries client_ids_in_world
notify_world channel client_id world_id p include_sender s = elim (find_game client_id s.games) [
  | none ↦ (ok tt, s)
  | some (k, g) ↦ (
    ok tt,
    record s {
      sent =
          s.sent
          ++ deliveries channel p (client_ids_in_world g.players world_id client_id include_sender)
              s.clients;
    },
  )
]
