-- ===== src/Server/Callback/CloseSocket/Closed.antt =====
-- What is left of a player whose connection closed (callback/close_socket.rs).
use vangers_srv.Base.{
  ℕ, ◌≡◌, refl, sym, ◌∙◌, not, Option, none, some, List, [], ◌∷◌, ◌++◌, arith, ◌==◌, if◌then◌else◌,
  select, ok, Bool-cases, inl, inr,
}
use vangers_srv.Protocol.{Packet, packet_of}
use vangers_srv.Protocol.Actions.{Action}
use vangers_srv.Protocol.Framing.{new_fits}
use vangers_srv.Player.{Player, Status, initial, gaming, status_code, finished}
use vangers_srv.Player.Body.{body_bytes}
use vangers_srv.Game.{Game, RemovedPlayer, get_player, set_player, removed_player, is_not_gaming}
use vangers_srv.Game.Players.{get_player_client, get_player-set_player_other, get_player-select}
use vangers_srv.Server.Errors.{CloseSocketError}
use vangers_srv.Server.Callback.CloseSocket.Leaver.{bound_player}
use vangers_srv.Server.Callback.CloseSocket.{
  finished_player, keep_snapshot, finished_packet, close_player, close_in_game, remove_player,
  is_empty,
}

-- The packet of a player that was gaming.
abbrev pub farewell : ℕ → Player → Option Packet
farewell bind_id p = elim p.status [
  | initial ↦ none
  | gaming ↦ some (packet_of Action.players_status (bind_id ∷ status_code finished ∷ []))
  | finished ↦ none
]

-- The status of a player that left.
abbrev pub left_status : Status → Status
left_status initial = initial
left_status gaming = finished
left_status finished = finished

-- What the game keeps of a player with a name and a body that left: it is in no world.
abbrev pub farewell_snapshot : ℕ → Player → Option RemovedPlayer
farewell_snapshot bind_id p = elim p.auth [
  | none ↦ none
  | some auth ↦ elim p.body [
    | none ↦ none
    | some body ↦ some (record {
      bind_id = bind_id;
      status = left_status p.status;
      world = 0;
      pos = p.pos;
      name = auth.name;
      body = body_bytes body;
    })
  ]
]

-- The snapshots of a bind id.
abbrev pub of_bind : ℕ → List RemovedPlayer → List RemovedPlayer
of_bind b rs = select (λ r. r.bind_id == b) rs

-- A new snapshot is the only one, and without one there are those there were.
abbrev pub latest : Option RemovedPlayer → List RemovedPlayer → List RemovedPlayer
latest none rs = rs
latest (some r) rs = r ∷ []

of_bind-replaced :
    (b : ℕ) (r : RemovedPlayer) (rs : List RemovedPlayer)
    → of_bind b (select (λ q. not (q.bind_id == r.bind_id)) rs ++ r ∷ [])
      ≡ (if b == r.bind_id then r ∷ [] else of_bind b rs)
of_bind-replaced b r [] = ground arith
of_bind-replaced b r (q ∷ rs) = ground (arith, of_bind-replaced b r rs)

is_left : (s : Status) → (if is_not_gaming s then s else finished) ≡ left_status s
is_left initial = refl
is_left gaming = refl
is_left finished = refl

removed_player-finished_player :
    (bind_id : ℕ) (p : Player)
    → p.bind ≡ some bind_id
    → removed_player (finished_player p) ≡ farewell_snapshot bind_id p
unfolding removed_player
removed_player-finished_player bind_id p bound = ground (arith, is_left p.status)

bind_id-farewell_snapshot :
    (bind_id : ℕ) (p : Player) (r : RemovedPlayer)
    → farewell_snapshot bind_id p ≡ some r
    → r.bind_id ≡ bind_id
bind_id-farewell_snapshot bind_id p r e = ground arith

of_bind-kept :
    (b bind_id : ℕ) (o : Option RemovedPlayer) (rs : List RemovedPlayer)
    → ((r : RemovedPlayer) → o ≡ some r → r.bind_id ≡ bind_id)
    → of_bind b (keep_snapshot o rs)
      ≡ (if b == bind_id then latest o (of_bind b rs) else of_bind b rs)
unfolding keep_snapshot
of_bind-kept b bind_id none rs h = ground arith
of_bind-kept b bind_id (some r) rs h = rw (sym (h r refl)) (of_bind-replaced b r rs)

-- The snapshots of each bind id when a player's one is kept.
of_bind-keep_snapshot :
    (b bind_id : ℕ) (p : Player) (rs : List RemovedPlayer)
    → p.bind ≡ some bind_id
    → of_bind b (keep_snapshot (removed_player (finished_player p)) rs)
      ≡ (if b == bind_id then latest (farewell_snapshot bind_id p) (of_bind b rs) else of_bind b rs)
of_bind-keep_snapshot b bind_id p rs bound =
    rw (removed_player-finished_player bind_id p bound) (
      of_bind-kept b bind_id (farewell_snapshot bind_id p) rs (bind_id-farewell_snapshot bind_id p))

finished_packet_ok :
    (E : Type 0) (bind_id : ℕ) (p : Player)
    → finished_packet {E = E} bind_id p ≡ ok (farewell bind_id p)
unfolding finished_packet
finished_packet_ok E bind_id p = ground (
  arith,
  new_fits {E = E} Action.players_status (bind_id ∷ status_code finished ∷ []) (omega arith),
)

-- The game when the handler has written the player and its snapshot.
abbrev pub closing : Game → ℕ → Player → Game
closing g client_id player = record g {
  players = set_player client_id (finished_player player) g.players;
  removed_players = keep_snapshot (removed_player (finished_player player)) g.removed_players;
}

bound_player_ok :
    (client_id : ℕ) (g : Game) (player : Player) (bind_id : ℕ)
    → get_player client_id g.players ≡ some player
    → player.bind ≡ some bind_id
    → bound_player client_id g ≡ ok (bind_id, player)
unfolding bound_player
bound_player_ok client_id g player bind_id found bound = ground arith

pub close_in_game_ok :
    (client_id : ℕ) (g : Game) (player : Player) (bind_id : ℕ)
    → get_player client_id g.players ≡ some player
    → player.bind ≡ some bind_id
    → close_in_game client_id g ≡ (ok (farewell bind_id player), closing g client_id player)
unfolding close_in_game close_player
close_in_game_ok client_id g player bind_id found bound =
    rw
      (
        bound_player_ok client_id g player bind_id found bound,
        finished_packet_ok CloseSocketError bind_id player,
      )
      refl

-- The game when the player is out.
abbrev pub closed : Game → ℕ → Player → Game
closed g client_id player = record (closing g client_id player) {
  players = select (λ p. not (p.client_id == client_id)) (closing g client_id player).players;
}

pub remove_player_ok :
    (E : Type 0) (client_id : ℕ) (g : Game) (player : Player)
    → remove_player {E = E} client_id (closing g client_id player) ≡ (
      ok (if is_empty (closed g client_id player).players then some g.id else none),
      closed g client_id player,
    )
unfolding remove_player
remove_player_ok E client_id g player = refl

pub closed_players :
    (client_id other : ℕ) (g : Game) (player : Player)
    → get_player client_id g.players ≡ some player
    → get_player other (closed g client_id player).players
      ≡ (if other == client_id then none else get_player other g.players)
closed_players client_id other g player found = elim (Bool-cases (other == client_id)) [
  | inl e ↦ get_player-select client_id other _ ∙ ground arith
  | inr e ↦
      get_player-select client_id other _
      ∙ ground (
        arith,
        get_player-set_player_other client_id other (finished_player player) g.players
            (get_player_client client_id g.players player found),
      )
]

-- When the client has a bound player in the game, closing returns the packet that tells that it
-- finished, only if it was gaming; when the player is then taken out, the client has no player in
-- the game and every other client the one it had, and no object changed. A player with a name and a
-- body leaves one snapshot under its bind id, in place of all earlier ones: in no world, finished if
-- it was gaming, and with its place, name and body. One without leaves the snapshots of its bind id
-- as they were, and those of other bind ids stay in every case.
pub close_game :
    (client_id other b : ℕ) (g : Game) (player : Player) (bind_id : ℕ)
    → get_player client_id g.players ≡ some player
    → player.bind ≡ some bind_id
    → let g' = (remove_player {E = CloseSocketError} client_id (close_in_game client_id g).1).1 in
      ((close_in_game client_id g).0 ≡ ok (farewell bind_id player))
      × (get_player other g'.players
          ≡ (if other == client_id then none else get_player other g.players))
      × (g'.vanjects ≡ g.vanjects)
      × (of_bind b g'.removed_players ≡ (
          if b == bind_id
          then latest (farewell_snapshot bind_id player) (of_bind b g.removed_players)
          else of_bind b g.removed_players))
close_game client_id other b g player bind_id found bound =
    rw
      (
        close_in_game_ok client_id g player bind_id found bound,
        remove_player_ok CloseSocketError client_id g player,
      )
      (
        refl,
        closed_players client_id other g player found,
        refl,
        of_bind-keep_snapshot b bind_id player g.removed_players bound,
      )
