-- ===== src/Server/Callback/Tables/Players.antt =====
-- What the handlers of players do in a game keeps what holds of it (callback/*.rs).
use vangers_srv.Base.{
  ℕ, ◌≡◌, refl, List, [], ok, arith, err, panic, Result, sym, subst, map_err, length, drop,
  until_nul, ◌==◌, not,
}
use vangers_srv.Base.Keeps.{
  Keeps, lift-at, require-at, expect-at, require-Keeps, check-then-Keeps, check-at,
}
use vangers_srv.Player.{Player, set_auth, set_body}
use vangers_srv.Game.{Game, is_configured, get_player, get_gmtype, set_player, set_config}
use vangers_srv.Game.Valid.{IsGame, SameIds-IsGame, set_player-IsGame}
use vangers_srv.Server.Errors.{
  slice_to_body_parse, player_not_bind, player_not_found, name_parse, name_empty,
  already_configured, slice_to_game_config_parse,
}
use vangers_srv.Server.Callback.SetPosition.{move_in_game, moved_to}
use vangers_srv.Server.Callback.SetPlayerData.{dress}
use vangers_srv.Server.Callback.RegisterName.{name_player}
use vangers_srv.Server.Callback.RegisterName.Names.{extract_auth_data}
use vangers_srv.Server.Callback.SetGameData.{configure}
use vangers_srv.Server.Callback.Tables.Valid.{set_body-bind}

moved_to-bind : (x y screen : ℕ) (p : Player) → (moved_to x y screen p).bind ≡ p.bind
unfolding moved_to
moved_to-bind x y screen p = ground arith

set_auth-bind :
    {E : Type 0} (generated : List ℕ) (p q : Player) (name pwd : List ℕ)
    → set_auth {E = E} generated p name pwd ≡ ok q
    → q.bind ≡ p.bind
unfolding set_auth
set_auth-bind generated p q name pwd h = ground arith

-- A configuration changes nothing else.
set_config_same :
    (g g' : Game) (s : List ℕ) → set_config g s ≡ ok g' → g' ≡ record g { config = g'.config }
unfolding set_config
set_config_same g g' s h = ground arith

named-IsGame :
    (k : ℕ) (g g' : Game) (name : List ℕ)
    → IsGame k g
    → g' ≡ record g { config = g'.config }
    → IsGame k (record g' { name = name })
named-IsGame k g g' name h e =
    subst (λ x. IsGame k (record x { name = name })) (sym e)
      (SameIds-IsGame k g _ (refl, refl) h.stored h)

map_err-ok : {A E F : Type 0} (f : E → F) (r : Result E A) {a : A} → map_err f r ≡ ok a → r ≡ ok a
map_err-ok f (ok b) h = cc
map_err-ok f (err e) h = cc
map_err-ok f panic h = cc

module _ (k client_id : ℕ) where
  pub move_in_game-IsGame : (x y screen : ℕ) → Keeps (IsGame k) (move_in_game client_id x y screen)
  unfolding move_in_game
  move_in_game-IsGame x y screen g h =
      require-at (IsGame k) (get_player client_id g.players) (player_not_found client_id) _ g h
        (λ p e.
          set_player-IsGame k client_id (moved_to x y screen p) g p e (moved_to-bind x y screen p)
            h)

  pub dress-IsGame : (bytes : List ℕ) → Keeps (IsGame k) (dress client_id bytes)
  unfolding dress
  dress-IsGame bytes g h = expect-at (IsGame k) (get_player client_id g.players) _ g h (λ p e.
      lift-at (IsGame k) (set_body p bytes) _ g h (λ r e'.
        check-then-Keeps (IsGame k) r.1 (slice_to_body_parse (get_gmtype g)) _
          (require-Keeps (IsGame k) p.bind (player_not_bind client_id))
          (record g { players = set_player client_id r.0 g.players })
          (set_player-IsGame k client_id r.0 g p e (set_body-bind p r.0 bytes r.1 e') h)))

  pub name_player-IsGame : (bytes : List ℕ) → Keeps (IsGame k) (name_player client_id bytes)
  unfolding name_player
  name_player-IsGame bytes g h =
      require-at (IsGame k) (get_player client_id g.players) (player_not_found client_id) _ g h
        (λ p e. require-at (IsGame k) p.bind (player_not_bind client_id) _ g h (λ b bound.
          lift-at (IsGame k) (extract_auth_data bytes) _ g h (λ names parsed.
            lift-at (IsGame k) (set_auth [] p names.0 names.1) _ g h (λ q named.
              set_player-IsGame k client_id q g p e (set_auth-bind [] p q names.0 names.1 named)
                h))))

  pub configure-IsGame : (bytes : List ℕ) → Keeps (IsGame k) (configure bytes)
  unfolding configure
  configure-IsGame bytes g h =
      check-at (IsGame k) (not (is_configured g)) (already_configured g.id) _ g h (λ u.
        require-at (IsGame k) (until_nul bytes) name_parse _ g h (λ name e.
          check-at (IsGame k) (not (length name == 1)) name_empty _ g h (λ v.
            lift-at (IsGame k)
              (map_err slice_to_game_config_parse (set_config g (drop (length name) bytes))) _ g h
              (λ g' e'. named-IsGame k g g' name h (
                set_config_same g g' (drop (length name) bytes)
                  (map_err-ok slice_to_game_config_parse _ e'))))))
