-- ===== src/Game.antt =====
-- A game and its players, vangers-srv/src/game/game.rs.
pub mod Slots
pub mod Config
pub mod Attach
pub mod Players
pub mod Objects
pub mod Valid
use vangers_srv.Base.{
  ℕ, Bool, true, false, not, Option, none, some, List, [], ◌∷◌, ◌++◌, ltb, ◌==◌, if◌then◌else◌,
  select, find, Map, Result, ok, err, panic, ◌>>=◌,
}
use vangers_srv.Vanject.{Pos, Vanject}
use vangers_srv.Player.{
  World, Status, initial, gaming, finished, Player, Auth, set_bind, Body.body_bytes,
}
use Slots.{sort, first_gap}
use Config.{Config as GameConfig, GameType, unconfigured, get_gametype, config_from_slice}

-- `RemovedPlayer`
pub record RemovedPlayer : Type 0 where
  pub bind_id : ℕ
  pub status : Status
  pub world : ℕ
  pub pos : Pos
  pub name : List ℕ
  pub body : List ℕ

-- `Game`; `birth_time` is the number of seconds at which it was made.
pub record Game : Type 0 where
  pub id : ℕ
  pub name : List ℕ
  pub players : List Player
  pub removed_players : List RemovedPlayer
  pub worlds : List World
  pub birth_time : ℕ
  pub config : Option GameConfig
  pub vanjects : Map Vanject

-- `Game::new`
abbrev pub new_game : ℕ → ℕ → Game
new_game id now = record {
  id = id;
  name = [];
  players = [];
  removed_players = [];
  worlds = [];
  birth_time = now;
  config = none;
  vanjects = [];
}

-- `Game::is_configured`
abbrev pub is_configured : Game → Bool
is_configured g = elim g.config [ none ↦ false | some c ↦ true ]

-- `Game::get_gmtype`
abbrev pub get_gmtype : Game → GameType
get_gmtype g = elim g.config [ none ↦ unconfigured | some c ↦ get_gametype c.game_type ]

-- `Game::get_player`, and what `get_mut_player` finds.
unfoldable pub get_player : ℕ → List Player → Option Player
get_player client_id players = find (λ p. p.client_id == client_id) players

-- A write through what `get_mut_player` found: to the first player of the client.
unfoldable pub set_player : ℕ → Player → List Player → List Player
set_player client_id q [] = []
set_player client_id q (p ∷ ps) =
    let rest = set_player client_id q ps in if p.client_id == client_id then q ∷ ps else p ∷ rest

-- The ids of the players that have one.
abbrev pub bind_ids : List Player → List ℕ
bind_ids [] = []
bind_ids (p ∷ ps) = elim p.bind [ none ↦ bind_ids ps | some id ↦ id ∷ bind_ids ps ]

abbrev pub min_player_id : ℕ
min_player_id = 1

abbrev pub max_player_id : ℕ
max_player_id = 30

-- `Game::get_uniq_player_id`: thirty rounds, from 1 to 30.
unfoldable pub get_uniq_player_id : Game → Option ℕ
unfolding sort first_gap
get_uniq_player_id g = first_gap max_player_id min_player_id (sort (bind_ids g.players))

-- The game with one more player, and without what is left of an earlier player of that id.
abbrev pub attached : Game → Player → ℕ → Game
attached g p id = record g {
  removed_players = select (λ r. not (r.bind_id == id)) g.removed_players;
  players = g.players ++ record p { bind = some id } ∷ [];
}

-- `Game::attach_player`
unfoldable pub attach_player : {E : Type 0} → Game → Player → Result E (Option ℕ × Game)
attach_player g p = elim (get_uniq_player_id g) [
  | none ↦ ok (none, g)
  | some id ↦
      if ltb 0 id
      then (do
        q ← set_bind p id
        ok (
          some id,
          record g {
            removed_players = select (λ r. not (r.bind_id == id)) g.removed_players;
            players = g.players ++ q ∷ [];
          },
        ))
      else ok (none, g)
]

-- `status != GAMING`
abbrev pub is_not_gaming : Status → Bool
is_not_gaming gaming = false
is_not_gaming _ = true

-- `Game::place_player`. The flag says that the status changed; an unknown player or world panics.
unfoldable pub place_player : {E : Type 0} → Game → ℕ → World → Result E (Bool × Game)
place_player g client_id world = elim (get_player client_id g.players) [
  | none ↦ panic
  | some p ↦ elim (find (λ w. w.id == world.id) g.worlds) [
    | none ↦ panic
    | some w ↦ ok (
      is_not_gaming p.status,
      record g {
        players = set_player client_id (record p { world = some w; status = gaming }) g.players;
      },
    )
  ]
]

-- `Game::set_config`
pub data ConfigError : Type 0 where
  already_configured fail_converting : ConfigError

unfoldable pub set_config : Game → List ℕ → Result ConfigError Game
set_config g s = if is_configured g then err already_configured else (do
  config ← config_from_slice s
  elim config [ none ↦ err fail_converting | some c ↦ ok (record g { config = some c }) ])

-- `RemovedPlayer::from_player`
unfoldable pub removed_player : Player → Option RemovedPlayer
unfolding body_bytes
removed_player p = elim p.bind [
  | none ↦ none
  | some bind_id ↦ elim p.auth [
    | none ↦ none
    | some auth ↦ elim p.body [
      | none ↦ none
      | some body ↦ some (record {
        bind_id = bind_id;
        status = p.status;
        world = elim p.world [ none ↦ 0 | some w ↦ w.id ];
        pos = p.pos;
        name = auth.name;
        body = body_bytes body;
      })
    ]
  ]
]
