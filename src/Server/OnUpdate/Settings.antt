-- ===== src/Server/OnUpdate/Settings.antt =====
-- Packets that set something of a player or a game never end the server (callback/*.rs).
use vangers_srv.Base.{
  ℕ, ◌+◌, ◌≤◌, ◌≡◌, ◌≢◌, subst, arith, not, true, List, ◌∷◌, drop, ltb, ◌==◌, ==→eq, length,
  until_nul, word_at, word_at_in_range, inl, inr, Bool-cases, Option-cases, Result-cases, is_some,
  err, panic, map_err, IsOk,
}
use vangers_srv.Base.Exec.{Exec}
use vangers_srv.Base.Panics.{
  continue-panic, require-panic, expect-panic, check-panic, require_never, map_err-panic,
}
use vangers_srv.Protocol.{Packet, create_answer}
use vangers_srv.Player.{Player, set_body}
use vangers_srv.Player.Body.{body_from_slice_cases}
use vangers_srv.Game.{Game, get_player, is_configured, set_config, ConfigError}
use vangers_srv.Game.Config.{config_from_slice}
use vangers_srv.Game.Config.Total.{config_from_slice_total}
use vangers_srv.Server.{Server, in_game, notify_game, reliable}
use vangers_srv.Server.Lending.{in_game-outcome}
use vangers_srv.Server.Notices.{notify-ok}
use vangers_srv.Server.Errors.{
  SetGameDataError, SetPlayerDataError, SetPositionError, OnUpdateError,
}
use vangers_srv.Server.Callback.Answers.{answer}
use vangers_srv.Server.Callback.SetGameData.{configure, set_game_data}
use vangers_srv.Server.Callback.SetPlayerData.{dress, set_player_data}
use vangers_srv.Server.Callback.SetPosition.{move_in_game, set_position}

-- Code on the game of a client does not panic when it does not on any game of the client.
in_game_never :
    {E A : Type 0} (client_id : ℕ) (e : E) (m : Exec Game E A) (s : Server)
    → ((g : Game) → is_some (get_player client_id g.players) ≡ true → (m g).0 ≢ panic)
    → (in_game client_id (err e) m s).0 ≢ panic
in_game_never client_id e m s = in_game-outcome client_id (err e) m (λ r. r ≢ panic) s (λ h. cc)

set_config_never : (g : Game) (s : List ℕ) → set_config g s ≢ panic
unfolding set_config
set_config_never g s h = elim (Bool-cases (is_configured g)) [
  | inl c ↦ absurd (let bad = rw c at h in cc)
  | inr c ↦ elim (Result-cases (config_from_slice {E = ConfigError} s)) [
    | inl (config, e) ↦ elim (Option-cases config) [
      | inl n ↦ absurd (let bad = rw (c, e, n) at h in cc)
      | inr (b, n) ↦ absurd (let bad = rw (c, e, n) at h in cc)
    ]
    | inr (inl (d, e)) ↦ absurd (let bad = rw (c, e) at h in cc)
    | inr (inr e) ↦ subst IsOk e (config_from_slice_total ConfigError s)
  ]
]

configure_never : (bytes : List ℕ) (g : Game) → (configure bytes g).0 ≢ panic
unfolding configure
configure_never bytes g h =
    let (fresh, h1) = check-panic _ g (not (is_configured g)) _ h in
    let (name, e, h2) = require-panic _ g (until_nul bytes) _ h1 in
    let (long, h3) = check-panic _ g (not (length name == 1)) _ h2 in
    elim (continue-panic _ g
      (map_err SetGameDataError.slice_to_game_config_parse
        (set_config g (drop (length name) bytes)))
      h3) [
        | inl bad ↦
            set_config_never g (drop (length name) bytes)
              (map_err-panic SetGameDataError.slice_to_game_config_parse _ bad)
        | inr (g', e', h4) ↦ absurd (cc)
      ]

pub set_game_data_never :
    (client_id : ℕ) (p : Packet) (s : Server) → (set_game_data client_id p s).0 ≢ panic
unfolding set_game_data
set_game_data_never client_id p s h =
    let m : Exec Server SetGameDataError (Unit {0}) =
      in_game client_id (err (SetGameDataError.player_not_found client_id)) (configure p.bytes) in
    elim (continue-panic _ (m s).1 (map_err OnUpdateError.set_game_data_error (m s).0) h) [
      | inl bad ↦
          in_game_never client_id (SetGameDataError.player_not_found client_id) (configure p.bytes)
            s (λ g here. configure_never p.bytes g)
            (map_err-panic OnUpdateError.set_game_data_error (m s).0 bad)
      | inr (u, e, h1) ↦ absurd (cc)
    ]

set_body_never : (p : Player) (s : List ℕ) → set_body {E = SetPlayerDataError} p s ≢ panic
unfolding set_body
set_body_never p s h =
    let read = body_from_slice_cases {E = SetPlayerDataError} s in
    elim (Bool-cases (ltb (length s) 25)) [
      | inl t ↦ absurd (let bad = rw (read, t) at h in cc)
      | inr t ↦ absurd (let bad = rw (read, t) at h in cc)
    ]

dress_never :
    (client_id : ℕ) (bytes : List ℕ) (g : Game)
    → is_some (get_player client_id g.players) ≡ true
    → (dress client_id bytes g).0 ≢ panic
unfolding dress
dress_never client_id bytes g here h = elim (expect-panic _ g (get_player client_id g.players) h) [
  | inl bad ↦ ground arith
  | inr (p, e, h1) ↦ elim (continue-panic _ g (set_body p bytes) h1) [
    | inl bad ↦ set_body_never p bytes bad
    | inr ((dressed, fits), e1, h2) ↦
        let (ok_so, h3) = check-panic _ _ fits _ h2 in require_never p.bind _ _ h3
  ]
]

pub answer_never :
    (packet : Packet) (bytes : List ℕ) (s : Server) → (answer packet bytes s).0 ≢ panic
unfolding answer
answer_never packet bytes s = require_never (create_answer packet bytes) _ s

notify_game_never :
    (client_id : ℕ) (p : Packet) (s : Server)
    → (notify_game {E = OnUpdateError} reliable client_id p s).0 ≢ panic
notify_game_never client_id p s h =
    let fine = notify-ok OnUpdateError reliable client_id p (λ id. not (id == client_id)) s in
    absurd (cc)

pub set_player_data_never :
    (client_id : ℕ) (p : Packet) (s : Server) → (set_player_data client_id p s).0 ≢ panic
unfolding set_player_data
set_player_data_never client_id p s h =
    let missing = SetPlayerDataError.player_not_found client_id in
    let m : Exec Server SetPlayerDataError ℕ =
      in_game client_id (err missing) (dress client_id p.bytes) in
    let convert_error : SetPlayerDataError → OnUpdateError =
      λ e. OnUpdateError.set_player_data_error e in
    elim (continue-panic _ (m s).1 (map_err convert_error (m s).0) h) [
      | inl bad ↦
          in_game_never client_id missing (dress client_id p.bytes) s
            (dress_never client_id p.bytes) (map_err-panic convert_error (m s).0 bad)
      | inr (player_id, e1, h1) ↦
          let told : Exec Server OnUpdateError Packet = answer p (player_id ∷ p.bytes) in
          let after = told (m s).1 in
          elim (continue-panic _ after.1 after.0 h1) [
            | inl bad ↦ answer_never p (player_id ∷ p.bytes) (m s).1 bad
            | inr (q, e2, h2) ↦
                let sent : Exec Server OnUpdateError (Unit {0}) =
                  notify_game reliable client_id q in
                elim (continue-panic _ (sent after.1).1 (sent after.1).0 h2) [
                  | inl bad ↦ notify_game_never client_id q after.1 bad
                  | inr (u, e3, h3) ↦ absurd (cc)
                ]
          ]
    ]

move_in_game_never :
    (client_id x y screen : ℕ) (g : Game) → (move_in_game client_id x y screen g).0 ≢ panic
unfolding move_in_game
move_in_game_never client_id x y screen g h =
    let (p, e, h1) = require-panic _ g (get_player client_id g.players) _ h in absurd (cc)

word_at_never :
    {E : Type 0} (bytes : List ℕ) (from size : ℕ)
    → from + size ≤ length bytes
    → word_at {E = E} bytes from size ≢ panic
word_at_never {E} bytes from size fits h =
    let word = word_at_in_range {E = E} bytes from size fits in absurd (cc)

pub set_position_never :
    (client_id : ℕ) (p : Packet) (s : Server) → (set_position client_id p s).0 ≢ panic
unfolding set_position
set_position_never client_id p s h =
    let (size, h0) = check-panic _ s (length p.bytes == 6) _ h in
    let whole : length p.bytes ≡ 6 = ==→eq (length p.bytes) 6 size in
    elim (continue-panic _ s (word_at p.bytes 0 2) h0) [
      | inl bad ↦ word_at_never {E = OnUpdateError} p.bytes 0 2 (omega arith) bad
      | inr (x, e1, h1) ↦ elim (continue-panic _ s (word_at p.bytes 2 2) h1) [
        | inl bad ↦ word_at_never {E = OnUpdateError} p.bytes 2 2 (omega arith) bad
        | inr (y, e2, h2) ↦ elim (continue-panic _ s (word_at p.bytes 4 2) h2) [
          | inl bad ↦ word_at_never {E = OnUpdateError} p.bytes 4 2 (omega arith) bad
          | inr (screen, e3, h3) ↦
              let missing = SetPositionError.player_not_found client_id in
              let m : Exec Server SetPositionError (Unit {0}) =
                in_game client_id (err missing) (move_in_game client_id x y screen) in
              elim (continue-panic _ (m s).1 (map_err OnUpdateError.set_position_error (m s).0)
                h3) [
                  | inl bad ↦
                      in_game_never client_id missing (move_in_game client_id x y screen) s
                        (λ g here. move_in_game_never client_id x y screen g)
                        (map_err-panic OnUpdateError.set_position_error (m s).0 bad)
                  | inr (u, e4, h4) ↦ absurd (cc)
                ]
        ]
      ]
    ]
