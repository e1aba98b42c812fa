-- ===== src/Server/Running/Valid.antt =====
-- What holds of every state that the server's loop reaches (server/server.rs).
use vangers_srv.Base.{ℕ, ◌+◌, refl, some, ok, Option-cases, Result-cases, inl, inr}
use vangers_srv.Base.Exec
use vangers_srv.Base.Keeps.{Keeps, for_each-Keeps}
use vangers_srv.Game.{Game, get_player}
use vangers_srv.Game.Valid.{IsGame, set_player-IsGame}
use vangers_srv.Server.{Server, Connection, connected, authenticated, disconnected, updated}
use vangers_srv.Server.Tables.{IsServer, same_games-IsServer, in_game-IsServer}
use vangers_srv.Server.Errors.{OnUpdateError}
use vangers_srv.Server.OnUpdate.Valid.{on_update-IsServer}
use vangers_srv.Server.Callback.CloseSocket.{close_socket}
use vangers_srv.Server.Callback.CloseSocket.Tables.{close_socket-IsServer}
use vangers_srv.Server.Running.{
  disconnected_player_ttl, mark, mark_player_disconnected, expired, close,
  expire_disconnected_players, Event, tick, add, told, hear, handle, Reachable, start, wait, round,
}

mark-IsGame :
    (k client_id deadline : ℕ) (g : Game) → IsGame k g → IsGame k (mark client_id deadline g)
unfolding mark
mark-IsGame k client_id deadline g h = elim (Option-cases (get_player client_id g.players)) [
  | inl e ↦ rw (e, mark) h
  | inr (p, e) ↦
      rw (e, mark)
        (set_player-IsGame k client_id (record p { disconnected_until = some deadline }) g p e refl
          h)
]

mark_player_disconnected-IsServer :
    (client_id : ℕ) → Keeps IsServer (mark_player_disconnected client_id)
unfolding mark_player_disconnected
mark_player_disconnected-IsServer client_id s =
    in_game-IsServer {E = OnUpdateError} client_id (ok tt)
      (Exec.update (mark client_id (s.now + disconnected_player_ttl)))
      (λ k g h. mark-IsGame k client_id (s.now + disconnected_player_ttl) g h) s

close-IsServer : (client_id : ℕ) → Keeps IsServer (close client_id)
unfolding close
close-IsServer client_id s h = elim (Result-cases (close_socket client_id s).0) [
  | inl (r, e) ↦ rw (e, close) (close_socket-IsServer client_id s h)
  | inr (inl (d, e)) ↦ rw (e, close) (close_socket-IsServer client_id s h)
  | inr (inr e) ↦ rw (e, close) (close_socket-IsServer client_id s h)
]

hear-IsServer : (client_id : ℕ) (c : Connection) → Keeps IsServer (hear client_id c)
unfolding hear
hear-IsServer client_id disconnected =
    λ s h. same_games-IsServer _ _ refl (mark_player_disconnected-IsServer client_id s h)
hear-IsServer client_id (updated p) = on_update-IsServer client_id p
hear-IsServer client_id connected = λ s h. same_games-IsServer s _ refl h
hear-IsServer client_id (authenticated v) = λ s h. same_games-IsServer s _ refl h

pub handle-IsServer : (e : Event) → Keeps IsServer (handle e)
unfolding handle expire_disconnected_players
handle-IsServer tick s = for_each-Keeps IsServer close (expired s.now s.games) close-IsServer s
handle-IsServer (add c) s = λ h. same_games-IsServer s _ refl h
handle-IsServer (told client_id c) s = hear-IsServer client_id c s

-- In every state that the server's loop reaches from the start, whatever the clients connect, send and
-- drop, and whenever time passes: every game stands once and under its id, and in it every object
-- stands once and under its own id, and the bind ids of its players are distinct and from 1 to 30.
pub Reachable-IsServer : {s : Server} → Reachable s → IsServer s
Reachable-IsServer (start unix) = record { unique = tt; valid = tt }
Reachable-IsServer (wait {s} now unix r le) = same_games-IsServer s _ refl (Reachable-IsServer r)
Reachable-IsServer (round {s} e r) = handle-IsServer e s (Reachable-IsServer r)
