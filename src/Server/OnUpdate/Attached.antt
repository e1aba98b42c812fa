-- ===== src/Server/OnUpdate/Attached.antt =====
-- A player that attaches to a game, also to a new one, keeps what holds of every game
-- (callback/attach_to_game.rs).
use vangers_srv.Base.{
  ℕ, ◌+◌, ◌%◌, ◌^◌, ◌≡◌, refl, sym, subst, ap, ◌∙◌, not, Option, none, some, ◌==◌, ok, length,
  to_le, word_at, lookup, contains_key, insert, remove, Bool-cases, inl, inr, modify-IsMap,
  insert-IsMap,
}
use vangers_srv.Base.Exec
use vangers_srv.Base.Exec.{for_each}
use vangers_srv.Base.Keeps.{
  Keeps, then-Keeps, lift-at, require-at, lift-then-Keeps, check-then-Keeps, for_each-Keeps,
}
use vangers_srv.Protocol.{Packet, new, create_answer}
use vangers_srv.Protocol.Actions.{Action}
use vangers_srv.Player.{new_player}
use vangers_srv.Game.{Game, new_game, attach_player}
use vangers_srv.Game.Attach.{attach_player_fresh}
use vangers_srv.Game.Objects.{IsStored}
use vangers_srv.Game.Valid.{IsGame}
use vangers_srv.Server.{Server, reliable, notify_player}
use vangers_srv.Server.Tables.{
  IsServer, notify-IsServer, modify-AllValid, lookup-AllValid, retain_keys-AllValid,
}
use vangers_srv.Server.Errors.{
  OnUpdateError, AttachToGameError, attach_to_game_error, id_empty, not_exists, full,
}
use vangers_srv.Server.Callback.AttachToGame.{
  game_id, attach, game_header, global_packets, tell_answer, welcome, attach_to_game,
}

new_game-IsGame : (id now : ℕ) → IsGame id (new_game id now)
new_game-IsGame id now = record {
  named = refl;
  stored = record { unique = tt; keyed = tt };
  slotted = record { distinct = tt; positive = tt; bounded = tt };
}

created-IsServer :
    (s : Server) (id : ℕ)
    → IsServer s
    → IsServer (record s { games_id_uniq = id; games = insert id (new_game id s.now) s.games })
unfolding insert remove
created-IsServer s id h = record {
  unique = insert-IsMap id (new_game id s.now) s.games h.unique;
  valid = (new_game-IsGame id s.now, retain_keys-AllValid (λ j. not (j == id)) s.games h.valid);
}

game_id-IsServer : (E : Type 0) (asked : ℕ) → Keeps IsServer (game_id {E = E} asked)
unfolding game_id
game_id-IsServer E asked s h = elim (Bool-cases (asked == 0)) [
  | inr e ↦ rw (e, game_id) h
  | inl e ↦ elim (Bool-cases (contains_key ((s.games_id_uniq + 1) % 2 ^ 32) s.games)) [
    | inl e' ↦ rw (e, e', game_id) (record { unique = h.unique; valid = h.valid })
    | inr e' ↦ rw (e, e', game_id) (created-IsServer s ((s.games_id_uniq + 1) % 2 ^ 32) h)
  ]
]

attached-IsGame :
    (id : ℕ) (g g' : Game) (client_id slot : ℕ)
    → attach_player {E = AttachToGameError} g (new_player client_id) ≡ ok (some slot, g')
    → IsGame id g
    → IsGame id g'
attached-IsGame id g g' client_id slot e h =
    let (same, fresh, slotted) =
      attach_player_fresh AttachToGameError g (new_player client_id) h.slotted slot g' e in
    record {
      named = ap (λ x. x.id) same ∙ h.named;
      stored = subst (λ x. IsStored x) (sym same) h.stored;
      slotted = slotted;
    }

attach-IsServer : (client_id id : ℕ) → Keeps IsServer (attach client_id id)
unfolding attach
attach-IsServer client_id id s h =
    require-at IsServer (lookup id s.games) (not_exists id) _ s h (λ g found.
      lift-at IsServer (attach_player g (new_player client_id)) _ s h (λ r e.
        require-at IsServer r.0 (full g.id) _ s h (λ slot slotted. record {
          unique = modify-IsMap id _ s.games h.unique;
          valid = modify-AllValid id _ s.games h.unique h.valid (λ g'' found'' v.
              attached-IsGame id g r.1 client_id slot (e ∙ ap (λ x. ok (x, r.1)) slotted)
                (lookup-AllValid id g s.games h.valid found));
        })))

tell_answer-IsServer :
    (E : Type 0) (client_id : ℕ) (p : Option Packet)
    → Keeps IsServer (tell_answer {E = E} client_id p)
unfolding tell_answer
tell_answer-IsServer E client_id none = λ s h. h
tell_answer-IsServer E client_id (some p) =
    notify-IsServer E reliable client_id p (λ id. id == client_id)

welcome-IsServer :
    (E : Type 0) (client_id : ℕ) (packet : Packet) (r : ℕ × Game)
    → Keeps IsServer (welcome {E = E} client_id packet r)
unfolding welcome
welcome-IsServer E client_id packet (player_id, g) s =
    lift-then-Keeps IsServer (game_header s.now player_id g) _
      (λ header. lift-then-Keeps IsServer (global_packets g.vanjects) _ (λ packets.
        then-Keeps IsServer (tell_answer client_id (create_answer packet header)) _
          (tell_answer-IsServer E client_id (create_answer packet header))
          (λ u s'.
            lift-then-Keeps IsServer (new Action.z_time_response (to_le 4 s'.unix)) _
              (λ time.
                then-Keeps IsServer (notify_player client_id time) _
                  (notify-IsServer E reliable client_id time (λ id. id == client_id))
                  (λ v.
                    for_each-Keeps IsServer (λ p. notify_player client_id p) packets
                      (λ p. notify-IsServer E reliable client_id p (λ id. id == client_id))))
              s')))
      s

pub attach_to_game-IsServer :
    (client_id : ℕ) (packet : Packet) → Keeps IsServer (attach_to_game client_id packet)
unfolding attach_to_game
attach_to_game-IsServer client_id packet =
    check-then-Keeps IsServer (length packet.bytes == 4) (attach_to_game_error id_empty) _ (
      lift-then-Keeps IsServer (word_at packet.bytes 0 4) _ (λ asked.
        then-Keeps IsServer (game_id asked) _ (game_id-IsServer OnUpdateError asked) (λ id.
          then-Keeps IsServer (Exec.convert attach_to_game_error (attach client_id id)) _
            (attach-IsServer client_id id)
            (λ r.
              then-Keeps IsServer (welcome client_id packet r) _
                (welcome-IsServer OnUpdateError client_id packet r) (λ u s h. h)))))
