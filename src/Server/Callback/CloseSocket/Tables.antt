-- ===== src/Server/Callback/CloseSocket/Tables.antt =====
-- Closing a connection keeps what holds of every game (callback/close_socket.rs).
use vangers_srv.Base.{
  ℕ, ◌≡◌, refl, ok, List, retain_keys-IsMap, sym, subst, not, ◌==◌, Option, none, some, arith,
  remove, err, panic, Result-cases, inl, inr,
}
use vangers_srv.Base.Exec.{convert}
use vangers_srv.Base.Keeps.{Keeps, then-Keeps}
use vangers_srv.Protocol.{Packet}
use vangers_srv.Player.{Player}
use vangers_srv.Game.{Game, RemovedPlayer, get_player, set_player, removed_player}
use vangers_srv.Game.Valid.{IsGame, SameIds-IsGame, bind_ids-set_player, select-IsGame}
use vangers_srv.Server.{Server, reliable, in_game}
use vangers_srv.Server.Tables.{retain_keys-AllValid, IsServer, in_game-IsServer, notify-IsServer}
use vangers_srv.Server.Errors.{
  OnUpdateError, CloseSocketError, close_socket_error, player_not_found,
}
use vangers_srv.Server.Callback.Tables.{leave_world-IsServer}
use vangers_srv.Server.Callback.CloseSocket.Leaver.{bound_player}
use vangers_srv.Server.Callback.CloseSocket.{
  keep_snapshot, finished_packet, finished_player, leave_first, close_player, close_in_game,
  tell_finished, remove_player, drop_game, close_socket,
}

-- What closing writes to the game.
abbrev closing : ℕ → Player → List RemovedPlayer → Game → Game
closing client_id player removed g = record g {
  players = set_player client_id (finished_player player) g.players;
  removed_players = removed;
}

close_player-written :
    (E : Type 0) (client_id bind_id : ℕ) (player : Player) (g : Game)
    → (removed : List RemovedPlayer) × ((close_player {E = E} client_id bind_id player g).1
        ≡ closing client_id player removed g)
unfolding close_player
close_player-written E client_id bind_id player g =
    elim (Result-cases (finished_packet {E = E} bind_id player)) [
      | inl (p, e) ↦
          (keep_snapshot (removed_player (finished_player player)) g.removed_players, rw e refl)
      | inr (inl (d, e)) ↦ (g.removed_players, rw e refl)
      | inr (inr e) ↦ (g.removed_players, rw e refl)
    ]

bound_player-found :
    (client_id : ℕ) (g : Game) (bind_id : ℕ) (player : Player)
    → bound_player client_id g ≡ ok (bind_id, player)
    → get_player client_id g.players ≡ some player
unfolding bound_player
bound_player-found client_id g bind_id player h = ground arith

closing-IsGame :
    (k client_id : ℕ) (player : Player) (removed : List RemovedPlayer) (g : Game)
    → get_player client_id g.players ≡ some player
    → IsGame k g
    → IsGame k (closing client_id player removed g)
closing-IsGame k client_id player removed g found h =
    SameIds-IsGame k g _
      (refl, bind_ids-set_player client_id (finished_player player) g.players player found refl)
      h.stored h

close_in_game-IsGame : (k client_id : ℕ) → Keeps (IsGame k) (close_in_game client_id)
unfolding close_in_game
close_in_game-IsGame k client_id g h = elim (Result-cases (bound_player client_id g)) [
  | inl ((b, p), e) ↦
      let (removed, after) = close_player-written CloseSocketError client_id b p g in
      rw e (
        subst (IsGame k) (sym after)
          (closing-IsGame k client_id p removed g (bound_player-found client_id g b p e) h))
  | inr (inl (d, e)) ↦ rw e h
  | inr (inr e) ↦ rw e h
]

leave_first-IsServer : (client_id : ℕ) → Keeps IsServer (leave_first client_id)
unfolding leave_first
leave_first-IsServer client_id s h = leave_world-IsServer client_id s h

tell_finished-IsServer :
    (E : Type 0) (client_id : ℕ) (p : Option Packet)
    → Keeps IsServer (tell_finished {E = E} client_id p)
unfolding tell_finished
tell_finished-IsServer E client_id none = λ s h. h
tell_finished-IsServer E client_id (some p) =
    notify-IsServer E reliable client_id p (λ id. not (id == client_id))

drop_game-IsServer : (E : Type 0) (empty : Option ℕ) → Keeps IsServer (drop_game {E = E} empty)
unfolding drop_game remove
drop_game-IsServer E none = λ s h. h
drop_game-IsServer E (some id) = λ s h. record {
  unique = retain_keys-IsMap (λ j. not (j == id)) s.games h.unique;
  valid = retain_keys-AllValid (λ j. not (j == id)) s.games h.valid;
}

remove_player-IsGame :
    (E : Type 0) (k client_id : ℕ) → Keeps (IsGame k) (remove_player {E = E} client_id)
unfolding remove_player
remove_player-IsGame E k client_id g h = select-IsGame k (λ p. not (p.client_id == client_id)) g h

pub close_socket-IsServer :
    (client_id : ℕ) (s : Server) → IsServer s → IsServer (close_socket client_id s).1
unfolding close_socket
close_socket-IsServer client_id =
    then-Keeps IsServer (leave_first client_id) _ (leave_first-IsServer client_id) (λ u.
      then-Keeps IsServer
        (convert close_socket_error
          (in_game client_id (err (player_not_found client_id)) (close_in_game client_id)))
        _
        (in_game-IsServer client_id (err (player_not_found client_id)) (close_in_game client_id)
          (λ k. close_in_game-IsGame k client_id))
        (λ p.
          then-Keeps IsServer (tell_finished client_id p) _
            (tell_finished-IsServer OnUpdateError client_id p)
            (λ v.
              then-Keeps IsServer (in_game client_id panic (remove_player client_id)) _
                (in_game-IsServer client_id panic (remove_player client_id)
                  (λ k. remove_player-IsGame OnUpdateError k client_id))
                (λ empty.
                  then-Keeps IsServer (drop_game empty) _ (drop_game-IsServer OnUpdateError empty)
                    (λ w s h. h)))))
