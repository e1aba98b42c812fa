-- ===== src/Server/OnUpdate/Queries.antt =====
-- Queries and messages leave the games alone (callback/*.rs).
use vangers_srv.Base.{
  ℕ, to_le, ◌%◌, ◌^◌, refl, not, ◌&&◌, ltb, length, drop, List, ◌∷◌, ◌++◌, is_some, word_at,
  get_elem?, get_first_cstr,
}
use vangers_srv.Base.Exec
use vangers_srv.Base.Keeps.{
  Keeps, then-Keeps, convert-Keeps, require-Keeps, lift-then-Keeps, require-then, check-then-Keeps,
}
use vangers_srv.Protocol.{Packet, create_answer}
use vangers_srv.Game.{Game}
use vangers_srv.Game.Config.{config_bytes}
use vangers_srv.Server.{find_game}
use vangers_srv.Server.Tables.{IsServer, same_games-IsServer}
use vangers_srv.Server.Errors.{
  response_packet_type_not_exist, parse, string, client_is_out_of_games, player_not_found,
  player_not_bind, not_configured, mode_empty, get_game_data_error, direct_sending_error,
  total_players_data_query_error, top_list_query_error,
}
use vangers_srv.Server.Callback.Answers.{answer, respond}
use vangers_srv.Server.Callback.ServerTimeQuery.{server_time, server_time_query}
use vangers_srv.Server.Callback.GamesListQuery.{list_games, games_list_query}
use vangers_srv.Server.Callback.TopListQuery.{top_entries, entry_bytes, top_list_query}
use vangers_srv.Server.Callback.TotalPlayersDataQuery.{
  total_players_data_packet, total_players_data_query,
}
use vangers_srv.Server.Callback.GetGameData.{get_game_data}
use vangers_srv.Server.Callback.DirectSending.{sender, named_sender, message, direct_sending}

pub answer-IsServer : (packet : Packet) (bytes : List ℕ) → Keeps IsServer (answer packet bytes)
unfolding answer
answer-IsServer packet bytes =
    require-Keeps IsServer (create_answer packet bytes)
      (response_packet_type_not_exist packet.action)

respond-IsServer : (packet : Packet) (bytes : List ℕ) → Keeps IsServer (respond packet bytes)
unfolding respond
respond-IsServer packet bytes =
    then-Keeps IsServer (answer packet bytes) _ (answer-IsServer packet bytes) (λ p s h. h)

module _ (client_id : ℕ) (packet : Packet) where
  pub server_time_query-IsServer : Keeps IsServer (server_time_query client_id packet)
  unfolding server_time_query
  server_time_query-IsServer s h = respond-IsServer packet (to_le 4 (server_time s.now)) s h

  pub games_list_query-IsServer : Keeps IsServer (games_list_query client_id packet)
  unfolding games_list_query
  games_list_query-IsServer s h =
      let r = list_games s.now s.games in respond-IsServer packet (r.0 % 2 ^ 8 ∷ r.1) s h

  pub top_list_query-IsServer : Keeps IsServer (top_list_query client_id packet)
  unfolding top_list_query
  top_list_query-IsServer =
      require-then IsServer (get_elem? packet.bytes 0) (top_list_query_error mode_empty) _
        (λ mode s h.
          let best = top_entries mode s.games in
          respond-IsServer packet (mode ∷ length best ∷ entry_bytes best) s h)

  pub total_players_data_query-IsServer : Keeps IsServer (total_players_data_query client_id packet)
  unfolding total_players_data_query
  total_players_data_query-IsServer s =
      require-then IsServer (find_game client_id s.games)
        (total_players_data_query_error (player_not_found client_id)) _
        (λ r. lift-then-Keeps IsServer (total_players_data_packet r.1) _ (λ p s h. h)) s

  pub get_game_data-IsServer : Keeps IsServer (get_game_data client_id packet)
  unfolding get_game_data
  get_game_data-IsServer s =
      require-then IsServer (find_game client_id s.games)
        (get_game_data_error (player_not_found client_id)) _
        (λ r.
          require-then IsServer r.1.config (get_game_data_error (not_configured r.1.id)) _
            (λ c. respond-IsServer packet (r.1.name ++ config_bytes c)))
        s

  named_sender-IsServer : (g : Game) → Keeps IsServer (named_sender client_id g)
  unfolding named_sender
  named_sender-IsServer g =
      require-then IsServer (sender client_id g.players) (player_not_found client_id g.id) _ (λ p.
        check-then-Keeps IsServer (is_some p.bind && is_some p.auth)
          (player_not_bind client_id g.id) _
          (require-Keeps IsServer p.bind (player_not_bind client_id g.id)))

  message-IsServer : (bytes : List ℕ) → Keeps IsServer (message client_id bytes)
  unfolding message
  message-IsServer bytes = check-then-Keeps IsServer (not (ltb (length bytes) 6)) parse _ (λ s.
      require-then IsServer (find_game client_id s.games) (client_is_out_of_games client_id) _
        (λ r. lift-then-Keeps IsServer (word_at bytes 0 4) _ (λ mask.
          then-Keeps IsServer (named_sender client_id r.1) _ (named_sender-IsServer r.1)
            (λ id. require-then IsServer (get_first_cstr (drop 4 bytes)) string _ (λ t s h. h))))
        s)

  pub direct_sending-IsServer : Keeps IsServer (direct_sending client_id packet)
  unfolding direct_sending
  direct_sending-IsServer =
      then-Keeps IsServer (Exec.convert direct_sending_error (message client_id packet.bytes)) _
        (convert-Keeps IsServer direct_sending_error (message client_id packet.bytes)
          (message-IsServer packet.bytes))
        (λ r.
          then-Keeps IsServer (answer packet r.1) _ (answer-IsServer packet r.1)
            (λ p s h. same_games-IsServer s _ refl h))
