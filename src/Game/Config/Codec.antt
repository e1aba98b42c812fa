-- ===== src/Game/Config/Codec.antt =====
-- A configuration that was written is read back (game/{config,prm}.rs).
use vangers_srv.Base.{
  ℕ, ◌-◌, ◌<◌, ◌^◌, ◌≡◌, sym, ap, some, to_le, from_le, word_at, slice_from, ok, from_le-to_le,
}
use vangers_srv.Game.Config.{
  GameMode, van_war, mechosoma, passembloss, mir_rage, huntage, mustodont, Config, VanWarMode,
  MechosomaMode, PassemblossMode, MustodontMode, config_bytes, config_from_slice, mode_from_slice,
  van_war_from_slice, mechosoma_from_slice, passembloss_from_slice, mustodont_from_slice,
  game_type_from_i32,
}

abbrev U32 : ℕ → Type 0
U32 n = n < 2 ^ 32

-- The fields of a mode are words, and the time limit of a VanWar is the one that reading gives it.
abbrev pub ModeFits : GameMode → Type 0
ModeFits (van_war m) =
    U32 m.nascency
    × U32 m.team_mode
    × U32 m.world_access
    × U32 m.max_kills
    × (m.max_time ≡ 2 ^ 31 - 1)
ModeFits (mechosoma m) =
    U32 m.world
    × U32 m.product_quantity1
    × U32 m.product_quantity2
    × U32 m.one_at_a_time
    × U32 m.team_mode
ModeFits (passembloss m) = U32 m.checkpoints_number × U32 m.random_escave
ModeFits mir_rage = Unit
ModeFits huntage = Unit
ModeFits (mustodont m) = U32 m.unique_mechos_name × U32 m.team_mode

pub record Fits (c : Config) : Type 0 where
  pub initial_rnd : U32 c.initial_rnd
  pub initial_cash : U32 c.initial_cash
  pub artefacts_using : U32 c.artefacts_using
  pub in_escave_time : U32 c.in_escave_time
  pub color : U32 c.color
  pub mode : ModeFits c.game_type

le4 : (n : ℕ) → n < 2 ^ 32 → from_le (to_le 4 n) ≡ n
le4 n h = from_le-to_le 4 n h

module _ {E : Type 0} (c : Config) where
  van_war_round_trip :
      (m : VanWarMode)
      → Fits (record c { game_type = van_war m })
      → config_from_slice {E = E} (config_bytes (record c { game_type = van_war m }))
        ≡ ok (some (record c { game_type = van_war m }))
  unfolding config_from_slice config_bytes mode_from_slice game_type_from_i32 word_at slice_from
      van_war_from_slice
  van_war_round_trip m h =
      simp
        (
          le4 _ h.initial_rnd,
          le4 _ h.initial_cash,
          le4 _ h.artefacts_using,
          le4 _ h.in_escave_time,
          le4 _ h.color,
          le4 _ h.mode.0,
          le4 _ h.mode.1,
          le4 _ h.mode.2,
          le4 _ h.mode.3,
        )
        (ap (λ t. ok (some (record c { game_type = van_war (record m { max_time = t }) })))
          (sym h.mode.4))

  mechosoma_round_trip :
      (m : MechosomaMode)
      → Fits (record c { game_type = mechosoma m })
      → config_from_slice {E = E} (config_bytes (record c { game_type = mechosoma m }))
        ≡ ok (some (record c { game_type = mechosoma m }))
  unfolding config_from_slice config_bytes mode_from_slice game_type_from_i32 word_at slice_from
      mechosoma_from_slice
  mechosoma_round_trip m h = simp (
    le4 _ h.initial_rnd,
    le4 _ h.initial_cash,
    le4 _ h.artefacts_using,
    le4 _ h.in_escave_time,
    le4 _ h.color,
    le4 _ h.mode.0,
    le4 _ h.mode.1,
    le4 _ h.mode.2,
    le4 _ h.mode.3,
    le4 _ h.mode.4,
  )

  passembloss_round_trip :
      (m : PassemblossMode)
      → Fits (record c { game_type = passembloss m })
      → config_from_slice {E = E} (config_bytes (record c { game_type = passembloss m }))
        ≡ ok (some (record c { game_type = passembloss m }))
  unfolding config_from_slice config_bytes mode_from_slice game_type_from_i32 word_at slice_from
      passembloss_from_slice
  passembloss_round_trip m h = simp (
    le4 _ h.initial_rnd,
    le4 _ h.initial_cash,
    le4 _ h.artefacts_using,
    le4 _ h.in_escave_time,
    le4 _ h.color,
    le4 _ h.mode.0,
    le4 _ h.mode.1,
  )

  mustodont_round_trip :
      (m : MustodontMode)
      → Fits (record c { game_type = mustodont m })
      → config_from_slice {E = E} (config_bytes (record c { game_type = mustodont m }))
        ≡ ok (some (record c { game_type = mustodont m }))
  unfolding config_from_slice config_bytes mode_from_slice game_type_from_i32 word_at slice_from
      mustodont_from_slice
  mustodont_round_trip m h = simp (
    le4 _ h.initial_rnd,
    le4 _ h.initial_cash,
    le4 _ h.artefacts_using,
    le4 _ h.in_escave_time,
    le4 _ h.color,
    le4 _ h.mode.0,
    le4 _ h.mode.1,
  )

  mir_rage_round_trip :
      Fits (record c { game_type = mir_rage })
      → config_from_slice {E = E} (config_bytes (record c { game_type = mir_rage }))
        ≡ ok (some (record c { game_type = mir_rage }))
  unfolding config_from_slice config_bytes mode_from_slice game_type_from_i32 word_at slice_from
  mir_rage_round_trip h = simp (
    le4 _ h.initial_rnd,
    le4 _ h.initial_cash,
    le4 _ h.artefacts_using,
    le4 _ h.in_escave_time,
    le4 _ h.color,
  )

  huntage_round_trip :
      Fits (record c { game_type = huntage })
      → config_from_slice {E = E} (config_bytes (record c { game_type = huntage }))
        ≡ ok (some (record c { game_type = huntage }))
  unfolding config_from_slice config_bytes mode_from_slice game_type_from_i32 word_at slice_from
  huntage_round_trip h = simp (
    le4 _ h.initial_rnd,
    le4 _ h.initial_cash,
    le4 _ h.artefacts_using,
    le4 _ h.in_escave_time,
    le4 _ h.color,
  )

  round_trip :
      (mode : GameMode)
      → Fits (record c { game_type = mode })
      → config_from_slice {E = E} (config_bytes (record c { game_type = mode }))
        ≡ ok (some (record c { game_type = mode }))
  round_trip (van_war m) h = van_war_round_trip m h
  round_trip (mechosoma m) h = mechosoma_round_trip m h
  round_trip (passembloss m) h = passembloss_round_trip m h
  round_trip mir_rage h = mir_rage_round_trip h
  round_trip huntage h = huntage_round_trip h
  round_trip (mustodont m) h = mustodont_round_trip m h

  -- A configuration whose fields are words is read back as it was written, in every game mode; the
  -- time limit of a VanWar only if it is the greatest `i32`, which is what reading always gives.
  pub config_from_slice-config_bytes :
      Fits c → config_from_slice {E = E} (config_bytes c) ≡ ok (some c)
  config_from_slice-config_bytes h = round_trip c.game_type h
