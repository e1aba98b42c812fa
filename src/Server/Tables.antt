-- ===== src/Server/Tables.antt =====
-- What holds of all games of the server, vangers-srv/src/server/{server,games}.rs.
use vangers_srv.Base.{
  some, ◌==◌, ==→eq, modify, retain_keys, ℕ, ◌≡◌, refl, sym, subst, arith, Bool, none, [], ◌∷◌, All,
  Map, IsMap, lookup, Bool-cases, is_some, inl, inr, Result,
}
use vangers_srv.Base.Exec.{Exec}
use vangers_srv.Base.Keeps.{Keeps}
use vangers_srv.Protocol.{Packet}
use vangers_srv.Game.{Game, get_player}
use vangers_srv.Game.Valid.{IsGame}
use vangers_srv.Server.{Server, Channel, with_game, in_game, notify, notify_world}
use vangers_srv.Server.Notices.{notify-games, notify_world-games}

abbrev pub AllValid : Map Game → Type 0
AllValid games = All (λ e. IsGame e.0 e.1) games

-- Every game stands once, and under its id; in it, every object stands once and under its own id, and
-- the ids of its players are distinct and from 1 to 30.
pub record IsServer (s : Server) : Type 0 where
  pub unique : IsMap s.games
  pub valid : AllValid s.games

with_game-AllValid :
    {E A : Type 0} (client_id : ℕ) (missing : Result E A) (m : Exec Game E A) (games : Map Game)
    → ((k : ℕ) → Keeps (IsGame k) m)
    → AllValid games
    → AllValid (with_game client_id missing m games).1
unfolding with_game
with_game-AllValid client_id missing m [] keeps h = tt
with_game-AllValid client_id missing m ((k, g) ∷ games) keeps h =
    elim (Bool-cases (is_some (get_player client_id g.players))) [
      | inl e ↦ rw e (keeps k g h.0, h.1)
      | inr e ↦ rw e (h.0, with_game-AllValid client_id missing m games keeps h.1)
    ]

module _ {E A : Type 0} (client_id : ℕ) (missing : Result E A) (m : Exec Game E A) where
  with_game-lookup :
      (k : ℕ) (games : Map Game)
      → lookup k games ≡ none
      → lookup k (with_game client_id missing m games).1 ≡ none
  unfolding with_game lookup
  with_game-lookup k [] h = refl
  with_game-lookup k ((j, g) ∷ games) h =
      elim (Bool-cases (is_some (get_player client_id g.players))) [
        | inl e ↦ rw e (ground arith)
        | inr e ↦ rw e (ground (arith, with_game-lookup k games))
      ]

  with_game-IsMap : (games : Map Game) → IsMap games → IsMap (with_game client_id missing m games).1
  unfolding with_game
  with_game-IsMap [] h = tt
  with_game-IsMap ((k, g) ∷ games) h =
      elim (Bool-cases (is_some (get_player client_id g.players))) [
        | inl e ↦ rw e h
        | inr e ↦ rw e (with_game-lookup k games h.0, with_game-IsMap games h.1)
      ]

  -- Code that keeps what holds of a game, run on the game of a client.
  pub in_game-IsServer :
      ((k : ℕ) → Keeps (IsGame k) m) → Keeps IsServer (in_game client_id missing m)
  unfolding in_game
  in_game-IsServer keeps s h = record {
    unique = with_game-IsMap s.games h.unique;
    valid = with_game-AllValid client_id missing m s.games keeps h.valid;
  }

pub retain_keys-AllValid :
    (p : ℕ → Bool) (games : Map Game) → AllValid games → AllValid (retain_keys p games)
unfolding retain_keys
retain_keys-AllValid p [] h = tt
retain_keys-AllValid p ((k, g) ∷ games) h = elim (Bool-cases (p k)) [
  | inl e ↦ rw e (h.0, retain_keys-AllValid p games h.1)
  | inr e ↦ rw e (retain_keys-AllValid p games h.1)
]

pub lookup-AllValid :
    (k : ℕ) (g : Game) (games : Map Game) → AllValid games → lookup k games ≡ some g → IsGame k g
unfolding lookup
lookup-AllValid k g [] h e = absurd (ground arith)
lookup-AllValid k g ((j, f) ∷ games) h e = elim (Bool-cases (j == k)) [
  | inl t ↦ subst (λ x. IsGame x g) (==→eq j k t) (subst (IsGame j) (ground arith) h.0)
  | inr t ↦ lookup-AllValid k g games h.1 (ground arith)
]

-- A write to one game.
pub modify-AllValid :
    (k : ℕ) (f : Game → Game) (games : Map Game)
    → IsMap games
    → AllValid games
    → ((g : Game) → lookup k games ≡ some g → IsGame k g → IsGame k (f g))
    → AllValid (modify k f games)
unfolding modify lookup
modify-AllValid k f [] u h keeps = tt
modify-AllValid k f ((j, g) ∷ games) u h keeps = elim (Bool-cases (j == k)) [
  | inl t ↦
      let same : j ≡ k = ==→eq j k t in
      rw t (
        subst (λ x. IsGame x (f g)) (sym same)
            (keeps g (rw t refl) (subst (λ x. IsGame x g) same h.0)),
        modify-AllValid k f games u.1 h.1 (λ g' e v. absurd (gone j k games g' same u.0 e)),
      )
  | inr t ↦ rw t (h.0, modify-AllValid k f games u.1 h.1 (λ g' e v. keeps g' (rw t e) v))
]
  where
    gone :
        (j k : ℕ) (games : Map Game) (g' : Game)
        → j ≡ k
        → lookup j games ≡ none
        → lookup k games ≡ some g'
        → ⊥
    gone j k games g' same u e = cc

-- What leaves the games alone.
pub same_games-IsServer : (s s' : Server) → s'.games ≡ s.games → IsServer s → IsServer s'
same_games-IsServer s s' e h = record {
  unique = subst IsMap (sym e) h.unique;
  valid = subst AllValid (sym e) h.valid;
}

module _ (E : Type 0) where
  pub notify-IsServer :
      (c : Channel) (client_id : ℕ) (p : Packet) (filter : ℕ → Bool)
      → Keeps IsServer (notify {E = E} c client_id p filter)
  notify-IsServer c client_id p filter s h =
      same_games-IsServer s _ (notify-games E c client_id p filter s) h

  pub notify_world-IsServer :
      (c : Channel) (client_id world_id : ℕ) (p : Packet) (sender : Bool)
      → Keeps IsServer (notify_world {E = E} c client_id world_id p sender)
  notify_world-IsServer c client_id world_id p sender s h =
      same_games-IsServer s _ (notify_world-games E c client_id world_id p sender s) h
