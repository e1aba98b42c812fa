-- ===== src/Server/Callback/SetPosition/Moved.antt =====
-- Whom a position reaches (callback/set_position.rs).
use vangers_srv.Base.{
  ℕ, ◌≡◌, refl, ◌∙◌, none, some, ok, if◌then◌else◌, ◌==◌, Bool-cases, inl, inr, arith, ==→eq,
}
use vangers_srv.Player.{Player}
use vangers_srv.Game.{Game, get_player, set_player}
use vangers_srv.Game.Players.{get_player_client, get_player-set_player, get_player-set_player_other}
use vangers_srv.Server.Callback.SetPosition.{moved_to, move_in_game}

moved_client : (x y screen : ℕ) (p : Player) → (moved_to x y screen p).client_id ≡ p.client_id
unfolding moved_to
moved_client x y screen p =
    elim p.world
      as (λ w.
        (elim w as (λ _. Player) [
          | none ↦ p
          | some _ ↦ record p { pos = record { x = x; y = y }; screen_y_half_size = screen }
        ]).client_id
        ≡ p.client_id) [ none ↦ refl | some _ ↦ refl ]

moved_player :
    (client_id d : ℕ) (x y screen : ℕ) (g : Game) (p : Player)
    → get_player client_id g.players ≡ some p
    → get_player d (set_player client_id (moved_to x y screen p) g.players)
      ≡ (if d == client_id then some (moved_to x y screen p) else get_player d g.players)
moved_player client_id d x y screen g p h =
    let same = moved_client x y screen p ∙ get_player_client client_id g.players p h in
    elim (Bool-cases (d == client_id)) [
      | inl e ↦ rw (e, ==→eq d client_id e) (get_player-set_player client_id _ g.players p same h)
      | inr e ↦
          rw e
            (get_player-set_player_other client_id d _ g.players same (λ q. ground (arith, e, q)))
    ]

-- When the client has a player in the game, setting its position succeeds; the client's player then has
-- the position and the screen size, if it is in a world, and is as it was otherwise; every other
-- client has the player that it had, and nothing else of the game changes.
pub move_in_game_ok :
    (client_id other x y screen : ℕ) (g : Game) (p : Player)
    → get_player client_id g.players ≡ some p
    → let after = move_in_game client_id x y screen g in
      (after.0 ≡ ok tt)
      × (get_player other after.1.players ≡ (
          if other == client_id
          then some (elim p.world [
            | none ↦ p
            | some _ ↦ record p { pos = record { x = x; y = y }; screen_y_half_size = screen }
          ])
          else get_player other g.players))
      × (record after.1 { players = g.players } ≡ g)
unfolding move_in_game moved_to
move_in_game_ok client_id other x y screen g p h =
    rw h (refl, moved_player client_id other x y screen g p h, refl)
