-- ===== src/Server/Callback/AttachToGame/Overrun.antt =====
-- When attaching to a game ends the server (callback/attach_to_game.rs).
use vangers_srv.Base.{
  ℕ, ◌/◌, ◌%◌, ◌^◌, ◌≤◌, ◌≡◌, ◌⊎◌, ◌&&◌, refl, arith, inl, inr, List, [], ◌∷◌, ltb, ◌==◌, Map,
  panic, Bool-cases, Result-cases,
}
use vangers_srv.Vanject.{Vanject}
use vangers_srv.Vanject.Ids.{get_station}
use vangers_srv.Game.{Game}
use vangers_srv.Server.Callback.AttachToGame.{game_header}
use vangers_srv.Server.Callback.AttachToGame.Offsets.{no_offsets, type_index, raise_offsets}

-- An object has a player's station, the five bits of its own id from bit 26 on, and the id that it is
-- stored under has a type, the six bits from bit 16 on, past the sixteen offsets.
abbrev pub Overruns : ℕ → Map Vanject → Type 0
Overruns player_id [] = ⊥
Overruns player_id ((id, v) ∷ m) =
    ((v.id / 2 ^ 26 % 32 ≡ player_id) × (16 ≤ id / 2 ^ 16 % 64)) ⊎ Overruns player_id m

module _ (E : Type 0) (player_id : ℕ) where
  panics-Overruns :
      (m : Map Vanject) (offsets : List ℕ)
      → raise_offsets {E = E} player_id m offsets ≡ panic
      → Overruns player_id m
  unfolding raise_offsets get_station
  panics-Overruns [] offsets h = absurd (cc)
  panics-Overruns ((id, v) ∷ m) offsets h =
      elim (Bool-cases (get_station v.id == player_id && ltb 15 (type_index id))) [
        | inl t ↦ inl (ground arith)
        | inr t ↦ inr (panics-Overruns m _ (rw t at h))
      ]

  Overruns-panics :
      (m : Map Vanject) (offsets : List ℕ)
      → Overruns player_id m
      → raise_offsets {E = E} player_id m offsets ≡ panic
  unfolding raise_offsets get_station
  Overruns-panics [] offsets o = elim o [ ]
  Overruns-panics ((id, v) ∷ m) offsets (inl (here, past)) = ground arith
  Overruns-panics ((id, v) ∷ m) offsets (inr later) =
      elim (Bool-cases (get_station v.id == player_id && ltb 15 (type_index id))) [
        | inl t ↦ rw t refl
        | inr t ↦ rw t (Overruns-panics m _ later)
      ]

  -- The answer to a player that attaches to a game panics in every game with an object whose station, the
  -- five bits of its id from bit 26 on, is the player's slot, and whose type, the six bits from bit 16
  -- on of the id it is stored under, is 16 or more; where sums wrap around, as in a release build,
  -- it panics in no other game.
  pub game_header-Overruns :
      (now : ℕ) (g : Game)
      → ((game_header {E = E} now player_id g ≡ panic) → Overruns player_id g.vanjects)
        × (Overruns player_id g.vanjects → game_header {E = E} now player_id g ≡ panic)
  unfolding game_header
  game_header-Overruns now g = (
    λ h. elim (Result-cases (raise_offsets {E = E} player_id g.vanjects no_offsets)) [
      | inl (o, e) ↦ absurd (let bad = rw (game_header, e) at h in cc)
      | inr (inl (d, e)) ↦ absurd (let bad = rw (game_header, e) at h in cc)
      | inr (inr e) ↦ panics-Overruns g.vanjects no_offsets e
    ],
    λ o. rw (game_header, Overruns-panics g.vanjects no_offsets o) refl,
  )
