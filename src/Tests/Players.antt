-- ===== src/Tests/Players.antt =====
-- Bodies, players and configurations at concrete values (vangers-srv/src/player/body.rs, game/*.rs).
use vangers_srv.Base.{
  zero, suc, ◌-◌, ℕ, ◌≡◌, ◌^◌, refl, arith, Bool, true, false, List, [], ◌∷◌, ◌++◌, IsBytes, IsOk,
  Option, some, none, ok, contains,
}
use vangers_srv.Player.{Player, new_player}
use vangers_srv.Player.Body.{body_bytes, body_from_slice, read_body, body_bytes-body_from_slice}
use vangers_srv.Game.{Game, new_game, attach_player, attached, bind_ids}
use vangers_srv.Game.Attach.{
  IsSlotted, attach_player_fresh, attach_player_least, attach_player_full,
}
use vangers_srv.Game.Config.{Config, config_bytes, config_from_slice, van_war}
use vangers_srv.Game.Config.Codec.{Fits, config_from_slice-config_bytes}
use vangers_srv.Server.Errors.{OnUpdateError}
use vangers_srv.Tests.Scene.{game}

abbrev some_body : List ℕ
some_body =
    1 ∷ 2 ∷ 3 ∷ 4 ∷ 5 ∷ 6 ∷ 7 ∷ 8 ∷ 9 ∷ 10 ∷ 11 ∷ 12 ∷ 13 ∷ 14 ∷ 15 ∷ 16 ∷ 17 ∷ 18 ∷ 19 ∷ 20 ∷ 21
    ∷ 22 ∷ 23 ∷ 24 ∷ 25 ∷ 26 ∷ []

some_body-IsBytes : IsBytes some_body
some_body-IsBytes = ground arith

some_body_read : body_from_slice {E = OnUpdateError} some_body ≡ ok (some (read_body some_body))
unfolding body_from_slice vangers_srv.Base.byte_at vangers_srv.Base.word_at
    vangers_srv.Base.slice_from
some_body_read = refl

body_bytes-body_from_slice_example : body_bytes (read_body some_body) ≡ some_body
body_bytes-body_from_slice_example =
    body_bytes-body_from_slice {E = OnUpdateError} some_body (read_body some_body) some_body-IsBytes
      some_body_read

game-IsSlotted : IsSlotted game.players
game-IsSlotted = record { distinct = ground arith; positive = ground arith; bounded = ground arith }

abbrev carol : Player
carol = new_player 33

carol_joins : attach_player {E = OnUpdateError} game carol ≡ ok (some 3, attached game carol 3)
unfolding attach_player vangers_srv.Game.get_uniq_player_id vangers_srv.Player.set_bind
    vangers_srv.Player.bind_new
carol_joins = refl

attach_player_fresh_example :
    (attached game carol 3 ≡ attached game carol 3)
    × (contains (bind_ids game.players) 3 ≡ false)
    × IsSlotted (attached game carol 3).players
attach_player_fresh_example =
    attach_player_fresh OnUpdateError game carol game-IsSlotted 3 (attached game carol 3)
      carol_joins

attach_player_least_example : contains (bind_ids game.players) 2 ≡ true
attach_player_least_example =
    attach_player_least OnUpdateError game carol game-IsSlotted 3 (attached game carol 3) 2
      carol_joins (omega arith) (omega arith)

-- A game of thirty players.
abbrev crowd : ℕ → List Player
crowd zero = []
crowd (suc n) = record (new_player (suc n)) { bind = some (suc n) } ∷ crowd n

abbrev full : Game
full = record (new_game 1 0) { players = crowd 30 }

full-IsSlotted : IsSlotted full.players
full-IsSlotted = record { distinct = ground arith; positive = ground arith; bounded = ground arith }

carol_rejected : attach_player {E = OnUpdateError} full carol ≡ ok (none, full)
unfolding attach_player vangers_srv.Game.get_uniq_player_id
carol_rejected = refl

attach_player_full_example : (contains (bind_ids full.players) 17 ≡ true) × (full ≡ full)
attach_player_full_example =
    attach_player_full OnUpdateError full carol full-IsSlotted full 17 carol_rejected (omega arith)
      (omega arith)

abbrev pub config : Config
config = record {
  initial_rnd = 1;
  initial_cash = 5000;
  artefacts_using = 1;
  in_escave_time = 0;
  color = 7;
  game_type = van_war (record {
    nascency = 1;
    team_mode = 0;
    world_access = 5;
    max_kills = 10;
    max_time = 2 ^ 31 - 1;
  });
}

config-Fits : Fits config
config-Fits = ground arith

config_from_slice-config_bytes_example :
    config_from_slice {E = OnUpdateError} (config_bytes config) ≡ ok (some config)
config_from_slice-config_bytes_example = config_from_slice-config_bytes config config-Fits
