-- ===== src/Game/Players.antt =====
-- The players of a game by their client: finding one and writing one (game/game.rs).
use vangers_srv.Base.{
  none, if◌then◌else◌, select, not, is_some, true, ℕ, ◌≡◌, ◌≢◌, some, List, [], ◌∷◌, arith, ◌==◌,
  find_sound, ==→eq,
}
use vangers_srv.Player.{Player}
use vangers_srv.Game.{get_player, set_player}

pub get_player_client :
    (c : ℕ) (ps : List Player) (p : Player) → get_player c ps ≡ some p → p.client_id ≡ c
unfolding get_player
get_player_client c ps p h = ==→eq p.client_id c (find_sound (λ q. q.client_id == c) ps p h)

-- A player that is written is found.
pub get_player-set_player :
    (c : ℕ) (q : Player) (ps : List Player) (p : Player)
    → q.client_id ≡ c
    → get_player c ps ≡ some p
    → get_player c (set_player c q ps) ≡ some q
unfolding get_player set_player
get_player-set_player c q [] p e h = ground arith
get_player-set_player c q (x ∷ ps) p e h = ground (arith, get_player-set_player c q ps p e)

-- Writing one player changes no other.
pub get_player-set_player_other :
    (c d : ℕ) (q : Player) (ps : List Player)
    → q.client_id ≡ c
    → c ≢ d
    → get_player d (set_player c q ps) ≡ get_player d ps
unfolding get_player set_player
get_player-set_player_other c d q [] e n = ground arith
get_player-set_player_other c d q (x ∷ ps) e n =
    ground (arith, get_player-set_player_other c d q ps e n)

-- Writing a player keeps it in the game.
pub set_player_stays :
    (c : ℕ) (q : Player) (ps : List Player)
    → q.client_id ≡ c
    → is_some (get_player c ps) ≡ true
    → is_some (get_player c (set_player c q ps)) ≡ true
unfolding get_player set_player
set_player_stays c q [] e h = h
set_player_stays c q (x ∷ ps) e h = ground (arith, set_player_stays c q ps e)

-- A player that is taken out is gone, and no other is.
pub get_player-select :
    (c d : ℕ) (ps : List Player)
    → get_player d (select (λ p. not (p.client_id == c)) ps)
      ≡ (if d == c then none else get_player d ps)
unfolding get_player
get_player-select c d [] = ground arith
get_player-select c d (x ∷ ps) = ground (arith, get_player-select c d ps)
