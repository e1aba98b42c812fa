-- ===== src/Server/Callback/RegisterName/Safe.antt =====
-- A REGISTER_NAME never ends the server (callback/register_name.rs).
use vangers_srv.Base.{
  ℕ, ◌+◌, ◌-◌, ◌≡◌, ◌≢◌, ap, ◌∙◌, arith, not, none, List, [], ◌∷◌, ltb, ltb→le, ◌^◌, ◌==◌, length,
  length-append, byte, drop, until_nul, Bool-cases, Option-cases, inl, inr, Result, ok, err, panic,
  map_err,
}
use vangers_srv.Base.Returns.{continue-ok, require-ok, moved}
use vangers_srv.Base.Panics.{continue-panic, require-panic, expect-panic, map_err-panic, map_err-ok}
use vangers_srv.Incoming.Frames.{byte-append}
use vangers_srv.Protocol.{Packet, create_answer}
use vangers_srv.Protocol.Actions.{Action}
use vangers_srv.Player.{Player, set_auth}
use vangers_srv.Game.{Game, get_player}
use vangers_srv.Server.{Server, in_game, notify_game, reliable}
use vangers_srv.Server.Lending.{in_game-outcome}
use vangers_srv.Server.Notices.{notify-ok}
use vangers_srv.Server.Errors.{
  RegisterNameError, player_not_found, player_not_bind, OnUpdateError, register_name_error,
}
use vangers_srv.Server.Callback.RegisterName.Names.{extract_auth_data}
use vangers_srv.Server.Callback.RegisterName.Bounds.{IsName, extract_auth_data-IsName}
use vangers_srv.Server.Callback.RegisterName.{name_player, register_name}

extract_never : (bytes : List ℕ) → extract_auth_data bytes ≢ panic
unfolding extract_auth_data
extract_never bytes h = elim (Option-cases (until_nul bytes)) [
  | inl e ↦ ground arith
  | inr (name, e) ↦ elim (Bool-cases (length name == 1)) [
    | inl l ↦ absurd (let bad = rw (e, l) at h in cc)
    | inr l ↦ elim (Bool-cases (ltb (length name) (length bytes))) [
      | inr f ↦ absurd (let bad = rw (e, l, f) at h in cc)
      | inl f ↦ elim (Option-cases (until_nul (drop (length name) bytes))) [
        | inl u ↦ absurd (let bad = rw (e, l, f, u) at h in cc)
        | inr (pwd, u) ↦ absurd (let bad = rw (e, l, f, u) at h in cc)
      ]
    ]
  ]
]

set_auth_never :
    (p : Player) (name pwd : List ℕ)
    → IsName name
    → set_auth {E = RegisterNameError} [] p name pwd ≢ panic
unfolding set_auth
set_auth_never p name pwd h e =
    let size : length name ≡ length h.text + 1 =
      ap length h.closed ∙ length-append h.text (0 ∷ []) in
    let last : byte name (length name - 1) ≡ 0 =
      ap (byte name) (omega (arith, size))
      ∙ ap (λ x. byte x (length h.text + 0)) h.closed
      ∙ byte-append h.text (0 ∷ []) 0 in
    let some_text = h.some_text in ground (arith, size, last, some_text)

name_player_never :
    (client_id : ℕ) (bytes : List ℕ) (g : Game) → (name_player client_id bytes g).0 ≢ panic
unfolding name_player
name_player_never client_id bytes g h =
    let (p, e1, h1) =
      require-panic _ g (get_player client_id g.players) (player_not_found client_id) h in
    let (id, e2, h2) = require-panic _ g p.bind (player_not_bind client_id) h1 in
    elim (continue-panic _ g (extract_auth_data bytes) h2) [
      | inl bad ↦ extract_never bytes bad
      | inr ((login, pwd), e3, h3) ↦ elim (continue-panic _ g (set_auth [] p login pwd) h3) [
        | inl bad ↦ set_auth_never p login pwd (extract_auth_data-IsName bytes login pwd e3) bad
        | inr (named, e4, h4) ↦ cc
      ]
    ]

name_player-IsName :
    (client_id : ℕ) (bytes : List ℕ) (g t : Game) (r : ℕ × List ℕ)
    → name_player client_id bytes g ≡ (ok r, t)
    → IsName r.1
unfolding name_player
name_player-IsName client_id bytes g t r h =
    let (p, e1, h1) =
      require-ok _ g t r (get_player client_id g.players) (player_not_found client_id) h in
    let (id, e2, h2) = require-ok _ g t r p.bind (player_not_bind client_id) h1 in
    let ((login, pwd), e3, h3) = continue-ok _ g t r (extract_auth_data bytes) h2 in
    let (named, e4, h4) = continue-ok _ g t r (set_auth [] p login pwd) h3 in
    let named_so : IsName login = extract_auth_data-IsName bytes login pwd e3 in
    moved (λ x y. IsName x.1) (id, login) r _ t h4 named_so

-- How naming a player ends.
abbrev Named : Result RegisterNameError (ℕ × List ℕ) → Type 0
Named r = (r ≢ panic) × ((bind_id : ℕ) (login : List ℕ) → r ≡ ok (bind_id, login) → IsName login)

name_player-Named :
    (client_id : ℕ) (bytes : List ℕ) (g : Game) → Named (name_player client_id bytes g).0
name_player-Named client_id bytes g = (
  name_player_never client_id bytes g,
  λ bind_id login e.
      name_player-IsName client_id bytes g (name_player client_id bytes g).1 (bind_id, login)
        (ap (λ r. (r, (name_player client_id bytes g).1)) e),
)

answered :
    (packet : Packet) (bind_id : ℕ) (login : List ℕ)
    → packet.action ≡ Action.register_name
    → IsName login
    → create_answer packet (bind_id ∷ login) ≢ none
unfolding create_answer
answered packet bind_id login a h e =
    let size : length login ≡ length h.text + 1 =
      ap length h.closed ∙ length-append h.text (0 ∷ []) in
    let short = h.short in
    elim (Bool-cases (ltb (length (bind_id ∷ login) + 1) (2 ^ 15))) [
      | inl l ↦ absurd (let bad = rw (create_answer, a, l) at e in cc)
      | inr l ↦ absurd (omega (arith, ltb→le _ _ l, size, short))
    ]

pub register_name_never :
    (client_id : ℕ) (packet : Packet) (s : Server)
    → packet.action ≡ Action.register_name
    → (register_name client_id packet s).0 ≢ panic
unfolding register_name
register_name_never client_id packet s a h =
    let naming =
      in_game client_id (err (player_not_found client_id)) (name_player client_id packet.bytes) in
    let named : Named (naming s).0 =
      in_game-outcome client_id (err (player_not_found client_id))
        (name_player client_id packet.bytes) Named s ((λ e. cc), (λ bind_id login e. absurd (cc)))
        (λ g here. name_player-Named client_id packet.bytes g) in
    let told_others : Packet → Result OnUpdateError (Unit {0}) × Server =
      λ p. notify_game reliable client_id p (naming s).1 in
    elim (continue-panic _ (naming s).1 (map_err register_name_error (naming s).0) h) [
      | inl bad ↦ named.0 (map_err-panic register_name_error (naming s).0 bad)
      | inr ((bind_id, login), e1, h1) ↦
          elim (expect-panic _ (naming s).1 (create_answer packet (bind_id ∷ login)) h1) [
            | inl bad ↦
                answered packet bind_id login a
                  (named.1 bind_id login
                    (map_err-ok register_name_error (naming s).0 (bind_id, login) e1))
                  bad
            | inr (told, e2, h2) ↦
                elim (continue-panic _ (told_others told).1 (told_others told).0 h2) [
                  | inl bad ↦ absurd (
                      let fine =
                        notify-ok OnUpdateError reliable client_id told
                          (λ id. not (id == client_id)) (naming s).1 in
                      cc)
                  | inr (u, e3, h3) ↦ absurd (cc)
                ]
          ]
    ]
