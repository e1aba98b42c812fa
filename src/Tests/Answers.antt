-- ===== src/Tests/Answers.antt =====
-- Messages, the list of the best and the answer to a new player, at concrete states (callback/*.rs).
use vangers_srv.Base.{err, Result, none, ℕ, List, ◌∷◌, ◌≡◌, [], refl, to_le}
use vangers_srv.Base.{select}
use vangers_srv.Game.{Game}
use vangers_srv.Player.{Player}
use vangers_srv.Player.Body.{Body}
use vangers_srv.Server.{Server}
use vangers_srv.Base.{false, some, ◌++◌, ◌^◌, ◌-◌, Map, All}
use vangers_srv.Server.Callback.TopListQuery.{entries, top_entries}
use vangers_srv.Server.Callback.TopListQuery.Best.{IsRated, Best, top_entries-Best}
use vangers_srv.Base.{panic, ◌*◌}
use vangers_srv.Server.Errors.{OnUpdateError}
use vangers_srv.Server.Callback.AttachToGame.{game_header}
use vangers_srv.Server.Callback.AttachToGame.Overrun.{Overruns, game_header-Overruns}
use vangers_srv.Tests.Players.{config}
use vangers_srv.Tests.Scene.{game, server, alice, bob, make_id, object}

-- Alice has a name, and writes to everybody.
abbrev talking : Server
talking = record server {
  games =
      (
        1,
        record game {
          players =
              record alice { auth = some (record { name = b'a' ∷ 0 ∷ []; pwd = false }) }
              ∷ bob
              ∷ [];
        },
      )
      ∷ [];
}

abbrev words : List ℕ
words = to_le 4 (2 ^ 32 - 1) ++ (b'h' ∷ b'i' ∷ 0 ∷ [])

-- A game with an object of the station 1 whose type is 20.
abbrev large_id : ℕ
large_id = make_id 1 0 (20 * 2 ^ 16) 7

abbrev crowded : Game
crowded = record game { vanjects = (large_id, object large_id 1 []) ∷ [] }

game_header-Overruns_example :
    ((game_header {E = OnUpdateError} 0 1 crowded ≡ panic) → Overruns 1 crowded.vanjects)
    × (Overruns 1 crowded.vanjects → game_header {E = OnUpdateError} 0 1 crowded ≡ panic)
game_header-Overruns_example = game_header-Overruns OnUpdateError 1 0 crowded

-- Two players of a mode, with the ratings 1.0 and 2.0.
abbrev body_of : ℕ → Body
body_of rating = record {
  kills = 0;
  deaths = 0;
  color = 0;
  world = 1;
  beebos = 0;
  rating = rating;
  car_index = 0;
  data1 = 0;
  data2 = 0;
  birth_time = 0;
  net_id = 0;
  stats = [];
}

abbrev rated : ℕ → Player → Player
rated rating p = record p {
  auth = some (record { name = b'a' ∷ 0 ∷ []; pwd = false });
  body = some (body_of rating);
}

abbrev rated_games : Map Game
rated_games =
    (
      1,
      record game {
        players = rated 0x3f800000 alice ∷ rated 0x40000000 bob ∷ [];
        config = some config;
      },
    )
    ∷ []

all-IsRated : All IsRated (entries 0 rated_games)
unfolding entries
all-IsRated = (refl, (refl, tt))

top_entries-Best_example : Best 10 (top_entries 0 rated_games) (entries 0 rated_games)
top_entries-Best_example = top_entries-Best 0 rated_games all-IsRated
