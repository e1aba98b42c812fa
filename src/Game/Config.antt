-- ===== src/Game/Config.antt =====
-- The configuration of a game and its slices, vangers-srv/src/game/{config,prm,mod}.rs. Every number is
-- the bit pattern of an `i32` or a `u32`.
pub mod Codec
pub mod Total
use mathlib.Core.Option
use vangers_srv.Base.{
  ℕ, ◌-◌, ◌^◌, Option, none, some, List, [], ◌++◌, ltb, leb, ◌==◌, if◌then◌else◌, length, to_le,
  word_at, slice_from, Result, ok, panic, ◌>>=◌,
}

-- `Type`
pub data GameType : Type 0 where
  unconfigured van_war mechosoma passembloss mir_rage huntage mustodont : GameType

-- `as i32`
unfoldable pub game_type_code : GameType → ℕ
game_type_code unconfigured = 2 ^ 32 - 1
game_type_code van_war = 0
game_type_code mechosoma = 1
game_type_code passembloss = 2
game_type_code mir_rage = 3
game_type_code huntage = 4
game_type_code mustodont = 5

-- `Type::from_i32`, from the `Primitive` derive.
unfoldable pub game_type_from_i32 : ℕ → Option GameType
game_type_from_i32 n =
    if n == 2 ^ 32 - 1
    then some unconfigured
    else if n == 0
    then some van_war
    else if n == 1
    then some mechosoma
    else if n == 2
    then some passembloss
    else if n == 3
    then some mir_rage
    else if n == 4
    then some huntage
    else if n == 5
    then some mustodont
    else none

-- `GameMode`: the parameters of prm.rs, field by field.
pub record VanWarMode : Type 0 where
  pub nascency : ℕ
  pub team_mode : ℕ
  pub world_access : ℕ
  pub max_kills : ℕ
  pub max_time : ℕ

pub record MechosomaMode : Type 0 where
  pub world : ℕ
  pub product_quantity1 : ℕ
  pub product_quantity2 : ℕ
  pub one_at_a_time : ℕ
  pub team_mode : ℕ

pub record PassemblossMode : Type 0 where
  pub checkpoints_number : ℕ
  pub random_escave : ℕ

pub record MustodontMode : Type 0 where
  pub unique_mechos_name : ℕ
  pub team_mode : ℕ

pub data GameMode : Type 0 where
  van_war : VanWarMode → GameMode
  mechosoma : MechosomaMode → GameMode
  passembloss : PassemblossMode → GameMode
  mir_rage huntage : GameMode
  mustodont : MustodontMode → GameMode

pub record Config : Type 0 where
  pub initial_rnd : ℕ
  pub initial_cash : ℕ
  pub artefacts_using : ℕ
  pub in_escave_time : ℕ
  pub color : ℕ
  pub game_type : GameMode

-- `Config::get_gametype`
abbrev pub get_gametype : GameMode → GameType
get_gametype (van_war m) = van_war
get_gametype (mechosoma m) = mechosoma
get_gametype (passembloss m) = passembloss
get_gametype mir_rage = mir_rage
get_gametype huntage = huntage
get_gametype (mustodont m) = mustodont

-- `VanWar::to_vangers_byte`
abbrev van_war_bytes : VanWarMode → List ℕ
van_war_bytes m =
    to_le 4 m.nascency
    ++ (to_le 4 m.team_mode
        ++ (to_le 4 m.world_access ++ (to_le 4 m.max_kills ++ to_le 4 m.max_time)))

-- `Mechosoma::to_vangers_byte`
abbrev mechosoma_bytes : MechosomaMode → List ℕ
mechosoma_bytes m =
    to_le 4 m.world
    ++ (to_le 4 m.product_quantity1
        ++ (to_le 4 m.product_quantity2 ++ (to_le 4 m.one_at_a_time ++ to_le 4 m.team_mode)))

-- `Passembloss::to_vangers_byte`
abbrev passembloss_bytes : PassemblossMode → List ℕ
passembloss_bytes m = to_le 4 m.checkpoints_number ++ to_le 4 m.random_escave

-- `Mustodont::to_vangers_byte`
abbrev mustodont_bytes : MustodontMode → List ℕ
mustodont_bytes m = to_le 4 m.unique_mechos_name ++ to_le 4 m.team_mode

-- The choice among them in `Config::to_vangers_byte`.
unfoldable pub mode_bytes : GameMode → List ℕ
mode_bytes (van_war m) = van_war_bytes m
mode_bytes (mechosoma m) = mechosoma_bytes m
mode_bytes (passembloss m) = passembloss_bytes m
mode_bytes mir_rage = []
mode_bytes huntage = []
mode_bytes (mustodont m) = mustodont_bytes m

-- `Config::to_vangers_byte`
unfoldable pub config_bytes : Config → List ℕ
unfolding mode_bytes game_type_code
config_bytes c =
    to_le 4 c.initial_rnd
    ++ (to_le 4 (game_type_code (get_gametype c.game_type))
        ++ (to_le 4 c.initial_cash
            ++ (to_le 4 c.artefacts_using
                ++ (to_le 4 c.in_escave_time ++ (to_le 4 c.color ++ mode_bytes c.game_type)))))

-- `VanWar::from_slice`: the time limit is not read from the slice, it is `i32::MAX`.
unfoldable pub van_war_from_slice : {E : Type 0} → List ℕ → Result E VanWarMode
van_war_from_slice s = if ltb (length s) 20 then panic else do
  nascency ← word_at s 0 4
  team_mode ← word_at s 4 4
  world_access ← word_at s 8 4
  max_kills ← word_at s 12 4
  ok (record {
    nascency = nascency;
    team_mode = team_mode;
    world_access = world_access;
    max_kills = max_kills;
    max_time = 2 ^ 31 - 1;
  })

-- `Mechosoma::from_slice`
unfoldable pub mechosoma_from_slice : {E : Type 0} → List ℕ → Result E MechosomaMode
mechosoma_from_slice s = if ltb (length s) 20 then panic else do
  world ← word_at s 0 4
  product_quantity1 ← word_at s 4 4
  product_quantity2 ← word_at s 8 4
  one_at_a_time ← word_at s 12 4
  team_mode ← word_at s 16 4
  ok (record {
    world = world;
    product_quantity1 = product_quantity1;
    product_quantity2 = product_quantity2;
    one_at_a_time = one_at_a_time;
    team_mode = team_mode;
  })

-- `Passembloss::from_slice`
unfoldable pub passembloss_from_slice : {E : Type 0} → List ℕ → Result E PassemblossMode
passembloss_from_slice s = if ltb (length s) 8 then panic else do
  checkpoints_number ← word_at s 0 4
  random_escave ← word_at s 4 4
  ok (record { checkpoints_number = checkpoints_number; random_escave = random_escave })

-- `Mustodont::from_slice`
unfoldable pub mustodont_from_slice : {E : Type 0} → List ℕ → Result E MustodontMode
mustodont_from_slice s = if ltb (length s) 8 then panic else do
  unique_mechos_name ← word_at s 0 4
  team_mode ← word_at s 4 4
  ok (record { unique_mechos_name = unique_mechos_name; team_mode = team_mode })

-- The mode of a slice: its type, and what stands behind the six base fields, if it is long enough.
unfoldable pub mode_from_slice :
    {E : Type 0} → Option GameType → List ℕ → Result E (Option GameMode)
mode_from_slice none s = ok none
mode_from_slice (some unconfigured) s = ok none
mode_from_slice (some van_war) s =
    if leb 20 (length s - 24)
    then (do rest ← slice_from s 24; m ← van_war_from_slice rest; ok (some (van_war m)))
    else ok none
mode_from_slice (some mechosoma) s =
    if leb 20 (length s - 24)
    then (do rest ← slice_from s 24; m ← mechosoma_from_slice rest; ok (some (mechosoma m)))
    else ok none
mode_from_slice (some passembloss) s =
    if leb 8 (length s - 24)
    then (do rest ← slice_from s 24; m ← passembloss_from_slice rest; ok (some (passembloss m)))
    else ok none
mode_from_slice (some mir_rage) s = ok (some mir_rage)
mode_from_slice (some huntage) s = ok (some huntage)
mode_from_slice (some mustodont) s =
    if leb 8 (length s - 24)
    then (do rest ← slice_from s 24; m ← mustodont_from_slice rest; ok (some (mustodont m)))
    else ok none

-- `Config::from_slice`
unfoldable pub config_from_slice : {E : Type 0} → List ℕ → Result E (Option Config)
config_from_slice s =
    if leb 24 (length s)
    then (do
      initial_rnd ← word_at s 0 4
      code ← word_at s 4 4
      initial_cash ← word_at s 8 4
      artefacts_using ← word_at s 12 4
      in_escave_time ← word_at s 16 4
      color ← word_at s 20 4
      mode ← mode_from_slice (game_type_from_i32 code) s
      ok (
          Option.map
            (λ game_type. record {
              initial_rnd = initial_rnd;
              initial_cash = initial_cash;
              artefacts_using = artefacts_using;
              in_escave_time = in_escave_time;
              color = color;
              game_type = game_type;
            })
            mode))
    else ok none
