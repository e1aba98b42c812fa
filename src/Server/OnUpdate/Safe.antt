-- ===== src/Server/OnUpdate/Safe.antt =====
-- Packets that never end the server (callback/mod.rs).
use vangers_srv.Base.{
  true, ℕ, ◌≤◌, ◌≡◌, ◌≢◌, refl, arith, not, List, drop, ltb, length, get_first_cstr, word_at,
  word_at_in_range, inl, inr, is_some, ◌&&◌, Result, ok, err, panic, map_err,
}
use vangers_srv.Base.Exec.{Exec}
use vangers_srv.Base.Panics.{
  continue-panic, require-panic, check-panic, require_never, map_err-panic,
}
use vangers_srv.Protocol.{Packet, create_answer}
use vangers_srv.Protocol.Actions.{Action}
use vangers_srv.Game.{Game}
use vangers_srv.Server.{Server, find_game, reliable}
use vangers_srv.Server.Notices.{notify-ok}
use vangers_srv.Server.Errors.{
  DirectSendingError, OnUpdateError, OnUpdateOk, response, broadcast, complete,
}
use vangers_srv.Server.Callback.Answers.{answer, respond}
use vangers_srv.Server.Callback.ServerTimeQuery.{server_time_query}
use vangers_srv.Server.Callback.GamesListQuery.{games_list_query}
use vangers_srv.Server.Callback.GetGameData.{get_game_data}
use vangers_srv.Server.Callback.DirectSending.{sender, named_sender, message, direct_sending}
use vangers_srv.Server.Callback.RegisterName.Safe.{register_name_never}
use vangers_srv.Server.OnUpdate.Settings.{
  answer_never, set_position_never, set_player_data_never, set_game_data_never,
}
use vangers_srv.Server.OnUpdate.{handler, finish, on_update}

respond_never : (packet : Packet) (bytes : List ℕ) (s : Server) → (respond packet bytes s).0 ≢ panic
unfolding respond
respond_never packet bytes s h =
    let (p, e, h1) =
      require-panic _ s (create_answer packet bytes)
        (OnUpdateError.response_packet_type_not_exist packet.action) h in
    absurd (cc)

server_time_query_never :
    (client_id : ℕ) (p : Packet) (s : Server) → (server_time_query client_id p s).0 ≢ panic
unfolding server_time_query
server_time_query_never client_id p s h = respond_never p _ s h

games_list_query_never :
    (client_id : ℕ) (p : Packet) (s : Server) → (games_list_query client_id p s).0 ≢ panic
unfolding games_list_query
games_list_query_never client_id p s h = respond_never p _ s h

get_game_data_never :
    (client_id : ℕ) (p : Packet) (s : Server) → (get_game_data client_id p s).0 ≢ panic
unfolding get_game_data
get_game_data_never client_id p s h =
    let ((k, g), e, h1) = require-panic _ s (find_game client_id s.games) _ h in
    let (config, e1, h2) = require-panic _ s g.config _ h1 in respond_never p _ s h2

named_sender_never :
    (client_id : ℕ) (g : Game) (s : Server) → (named_sender client_id g s).0 ≢ panic
unfolding named_sender
named_sender_never client_id g s h =
    let (p, e, h1) = require-panic _ s (sender client_id g.players) _ h in
    let (b, h2) = check-panic _ s (is_some p.bind && is_some p.auth) _ h1 in
    require_never p.bind _ s h2

message_never :
    (client_id : ℕ) (bytes : List ℕ) (s : Server) → (message client_id bytes s).0 ≢ panic
unfolding message
message_never client_id bytes s h =
    let (long, h0) = check-panic _ s (not (ltb (length bytes) 6)) _ h in
    let ((k, g), e1, h1) = require-panic _ s (find_game client_id s.games) _ h0 in
    elim (continue-panic _ s (word_at bytes 0 4) h1) [
      | inl bad ↦
          let fits : 4 ≤ length bytes = ground arith in
          let word = word_at_in_range {E = DirectSendingError} bytes 0 4 fits in absurd (cc)
      | inr (mask, e2, h2) ↦
          let named : Exec Server DirectSendingError ℕ = named_sender client_id g in
          elim (continue-panic _ (named s).1 (named s).0 h2) [
            | inl bad ↦ named_sender_never client_id g s bad
            | inr (player_id, e3, h3) ↦
                let (text, e4, h4) =
                  require-panic _ (named s).1 (get_first_cstr (drop 4 bytes)) _ h3 in
                absurd (cc)
          ]
    ]

direct_sending_never :
    (client_id : ℕ) (p : Packet) (s : Server) → (direct_sending client_id p s).0 ≢ panic
unfolding direct_sending
direct_sending_never client_id p s h =
    let said : Exec Server DirectSendingError (List ℕ × List ℕ) = message client_id p.bytes in
    elim (continue-panic _ (said s).1 (map_err OnUpdateError.direct_sending_error (said s).0) h) [
      | inl bad ↦
          message_never client_id p.bytes s
            (map_err-panic OnUpdateError.direct_sending_error (said s).0 bad)
      | inr ((ids, bytes), e1, h1) ↦
          let told : Exec Server OnUpdateError Packet = answer p bytes in
          elim (continue-panic _ (told (said s).1).1 (told (said s).1).0 h1) [
            | inl bad ↦ answer_never p bytes (said s).1 bad
            | inr (q, e2, h2) ↦ absurd (cc)
          ]
    ]

-- The actions that name a player, send a message, set a position, a body or a configuration, and the
-- queries that answer with `create_answer`.
pub data IsSafeAction : Action → Type 0 where
  names : IsSafeAction Action.register_name
  talks : IsSafeAction Action.direct_sending
  asks_time : IsSafeAction Action.server_time_query
  asks_games : IsSafeAction Action.games_list_query
  asks_config : IsSafeAction Action.get_game_data
  moves : IsSafeAction Action.set_position
  dresses : IsSafeAction Action.set_player_data
  configures : IsSafeAction Action.set_game_data

handler_never :
    (a : Action) (client_id : ℕ) (p : Packet) (s : Server)
    → IsSafeAction a
    → p.action ≡ a
    → (handler a client_id p s).0 ≢ panic
unfolding handler
handler_never _ client_id p s names e = register_name_never client_id p s e
handler_never _ client_id p s talks e = direct_sending_never client_id p s
handler_never _ client_id p s asks_time e = server_time_query_never client_id p s
handler_never _ client_id p s asks_games e = games_list_query_never client_id p s
handler_never _ client_id p s asks_config e = get_game_data_never client_id p s
handler_never _ client_id p s moves e = set_position_never client_id p s
handler_never _ client_id p s dresses e = set_player_data_never client_id p s
handler_never _ client_id p s configures e = set_game_data_never client_id p s

finish_returns :
    (client_id : ℕ) (r : Result OnUpdateError OnUpdateOk) (s : Server)
    → r ≢ panic
    → (finish client_id r s).0 ≡ ok tt
unfolding finish
finish_returns client_id (ok (response p)) s n = refl
finish_returns client_id (ok (broadcast p)) s n =
    notify-ok OnUpdateError reliable client_id p (λ id. true) s
finish_returns client_id (ok complete) s n = refl
finish_returns client_id (err e) s n = refl
finish_returns client_id panic s n = absurd (n refl)

-- Whatever bytes a packet brings that registers a name, sends a message, sets a player's position or
-- body or a game's configuration, or asks for the time, the games or a game's configuration, and
-- whatever the state is: the server returns to its loop, and none of the `unwrap`s, `expect`s and
-- slices on the way panics, where sums and products wrap around.
pub on_update_returns :
    (client_id : ℕ) (p : Packet) (s : Server)
    → IsSafeAction p.action
    → (on_update client_id p s).0 ≡ ok tt
unfolding on_update
on_update_returns client_id p s k =
    let done = handler p.action client_id p s in
    finish_returns client_id done.0 done.1 (handler_never p.action client_id p s k refl)
