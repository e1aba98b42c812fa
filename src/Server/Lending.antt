-- ===== src/Server/Lending.antt =====
-- What code does to the server through the game of a client, vangers-srv/src/server/games.rs.
use vangers_srv.Base.{
  ℕ, ◌≡◌, ◌≢◌, refl, ap, inl, inr, true, some, [], ◌∷◌, arith, Bool-cases, Map, is_some, Result,
  err,
}
use vangers_srv.Base.Exec.{Exec}
use vangers_srv.Base.Atomic.{IsAtomic, NeverFails}
use vangers_srv.Game.{Game, get_player}
use vangers_srv.Server.{Server, find_game, with_game, in_game}

module _ {E A : Type 0} (client_id : ℕ) (missing : Result E A) (m : Exec Game E A) where
  -- What holds of the outcome of the code on every game of the client, and where there is none, holds.
  with_game-outcome :
      (R : Result E A → Type 0) (games : Map Game)
      → R missing
      → ((g : Game) → is_some (get_player client_id g.players) ≡ true → R (m g).0)
      → R (with_game client_id missing m games).0
  unfolding with_game
  with_game-outcome R [] r each = r
  with_game-outcome R ((k, g) ∷ games) r each =
      elim (Bool-cases (is_some (get_player client_id g.players))) [
        | inl t ↦ rw t (each g t)
        | inr t ↦ rw t (with_game-outcome R games r each)
      ]

  pub in_game-outcome :
      (R : Result E A → Type 0) (s : Server)
      → R missing
      → ((g : Game) → is_some (get_player client_id g.players) ≡ true → R (m g).0)
      → R (in_game client_id missing m s).0
  unfolding in_game
  in_game-outcome R s = with_game-outcome R s.games

  with_game-refused :
      (e : E) (games : Map Game)
      → ((g : Game) → (m g).0 ≡ err e → (m g).1 ≡ g)
      → (with_game client_id missing m games).0 ≡ err e
      → (with_game client_id missing m games).1 ≡ games
  unfolding with_game
  with_game-refused e [] keeps h = refl
  with_game-refused e ((k, g) ∷ games) keeps h =
      elim (Bool-cases (is_some (get_player client_id g.players))) [
        | inl t ↦ ground (arith, keeps g)
        | inr t ↦ ground (arith, with_game-refused e games keeps)
      ]

  -- Code that leaves the game as it was when it fails leaves the server as it was.
  pub in_game-IsAtomic : IsAtomic m → IsAtomic (in_game client_id missing m)
  unfolding in_game
  in_game-IsAtomic at s e h =
      ap (λ games. record s { games = games }) (with_game-refused e s.games (λ g. at g e) h)

  with_game-NeverFails :
      (e : E) (games : Map Game)
      → missing ≢ err e
      → ((g : Game) → (m g).0 ≢ err e)
      → (with_game client_id missing m games).0 ≢ err e
  unfolding with_game
  with_game-NeverFails e [] n never h = n h
  with_game-NeverFails e ((k, g) ∷ games) n never h =
      elim (Bool-cases (is_some (get_player client_id g.players))) [
        | inl t ↦ never g (ground arith)
        | inr t ↦ with_game-NeverFails e games n never (ground arith)
      ]

  pub in_game-NeverFails :
      ((e : E) → missing ≢ err e) → NeverFails m → NeverFails (in_game client_id missing m)
  unfolding in_game
  in_game-NeverFails n never s e = with_game-NeverFails e s.games (n e) (λ g. never g e)

  found_here :
      (j : ℕ) (f : Game) (games : Map Game) (k : ℕ) (g : Game)
      → find_game client_id ((j, f) ∷ games) ≡ some (k, g)
      → is_some (get_player client_id f.players) ≡ true
      → (j ≡ k) × (f ≡ g)
  unfolding find_game
  found_here j f games k g h t = ground arith

  -- The game of the client is the one that the code runs on, and it stays the client's game as long as
  -- the client is in it.
  pub with_game_found :
      (games : Map Game) (k : ℕ) (g : Game)
      → find_game client_id games ≡ some (k, g)
      → is_some (get_player client_id (m g).1.players) ≡ true
      → ((with_game client_id missing m games).0 ≡ (m g).0)
        × (find_game client_id (with_game client_id missing m games).1 ≡ some (k, (m g).1))
  unfolding with_game find_game
  with_game_found [] k g h stays = absurd (ground arith)
  with_game_found ((j, f) ∷ games) k g h stays =
      elim (Bool-cases (is_some (get_player client_id f.players))) [
        | inl t ↦ ground (arith, found_here j f games k g h t)
        | inr t ↦ ground (arith, with_game_found games k g (ground arith) stays)
      ]

-- The same for the server.
pub in_game_found :
    {E A : Type 0} (client_id : ℕ) (missing : Result E A) (m : Exec Game E A) (s : Server) (k : ℕ)
    (g : Game)
    → find_game client_id s.games ≡ some (k, g)
    → is_some (get_player client_id (m g).1.players) ≡ true
    → ((in_game client_id missing m s).0 ≡ (m g).0)
      × (find_game client_id (in_game client_id missing m s).1.games ≡ some (k, (m g).1))
unfolding in_game
in_game_found client_id missing m s k g h stays =
    with_game_found client_id missing m s.games k g h stays

pub find_game_player :
    (client_id : ℕ) (games : Map Game) (k : ℕ) (g : Game)
    → find_game client_id games ≡ some (k, g)
    → is_some (get_player client_id g.players) ≡ true
unfolding find_game
find_game_player client_id [] k g h = absurd (ground arith)
find_game_player client_id ((j, f) ∷ games) k g h =
    ground (arith, find_game_player client_id games k g)
