-- ===== src/Server/OnUpdate/Valid.antt =====
-- Whatever packet a client sends, the dispatch keeps what holds of every game (callback/mod.rs).
use vangers_srv.Base.{ℕ, true, ◌≡◌, arith, ok, err, panic, Result}
use vangers_srv.Base.Keeps.{Keeps}
use vangers_srv.Protocol.{Packet}
use vangers_srv.Protocol.Actions.{Action}
use vangers_srv.Server.{Server, reliable}
use vangers_srv.Server.Tables.{IsServer, same_games-IsServer, notify-IsServer}
use vangers_srv.Server.Errors.{OnUpdateError, OnUpdateOk, broadcast, response, complete}
use vangers_srv.Server.OnUpdate.{handler, send_response, finish, on_update}
use vangers_srv.Server.OnUpdate.Queries.{
  server_time_query-IsServer, games_list_query-IsServer, top_list_query-IsServer,
  total_players_data_query-IsServer, get_game_data-IsServer, direct_sending-IsServer,
}
use vangers_srv.Server.OnUpdate.Sessions.{
  set_player_data-IsServer, register_name-IsServer, set_game_data-IsServer, set_position-IsServer,
  restore_connection-IsServer, set_world-IsServer,
}
use vangers_srv.Server.OnUpdate.Attached.{attach_to_game-IsServer}
use vangers_srv.Server.Callback.Tables.{
  item_transfer-IsServer, update_object-IsServer, delete_object-IsServer, create_object-IsServer,
  leave_world-IsServer,
}
use vangers_srv.Server.Callback.CloseSocket.Tables.{close_socket-IsServer}

handler-IsServer :
    (a : Action) (client_id : ℕ) (packet : Packet) → Keeps IsServer (handler a client_id packet)
unfolding handler
handler-IsServer Action.attach_to_game c p = attach_to_game-IsServer c p
handler-IsServer Action.restore_connection c p = restore_connection-IsServer c p
handler-IsServer Action.server_time_query c p = server_time_query-IsServer c p
handler-IsServer Action.games_list_query c p = games_list_query-IsServer c p
handler-IsServer Action.top_list_query c p = top_list_query-IsServer c p
handler-IsServer Action.total_players_data_query c p = total_players_data_query-IsServer c p
handler-IsServer Action.register_name c p = register_name-IsServer c p
handler-IsServer Action.set_player_data c p = set_player_data-IsServer c p
handler-IsServer Action.set_position c p = set_position-IsServer c p
handler-IsServer Action.set_game_data c p = set_game_data-IsServer c p
handler-IsServer Action.get_game_data c p = get_game_data-IsServer c p
handler-IsServer Action.create_object c p = create_object-IsServer c p
handler-IsServer Action.set_world c p = set_world-IsServer c p
handler-IsServer Action.leave_world c p = leave_world-IsServer c
handler-IsServer Action.update_object c p = update_object-IsServer c p
handler-IsServer Action.delete_object c p = delete_object-IsServer c p
handler-IsServer Action.item_transfer c p = item_transfer-IsServer c p
handler-IsServer Action.direct_sending c p = direct_sending-IsServer c p
handler-IsServer Action.close_socket c p = close_socket-IsServer c
handler-IsServer _ c p = λ s h. h

send_response-games :
    (client_id : ℕ) (p : Packet) (s : Server) → (send_response client_id p s).games ≡ s.games
unfolding send_response
send_response-games client_id p s = ground arith

finish-IsServer :
    (client_id : ℕ) (r : Result OnUpdateError OnUpdateOk) → Keeps IsServer (finish client_id r)
unfolding finish
finish-IsServer client_id (ok (response p)) =
    λ s h. same_games-IsServer s _ (send_response-games client_id p s) h
finish-IsServer client_id (ok (broadcast p)) =
    notify-IsServer OnUpdateError reliable client_id p (λ id. true)
finish-IsServer client_id (ok complete) = λ s h. h
finish-IsServer client_id (err e) = λ s h. h
finish-IsServer client_id panic = λ s h. h

pub on_update-IsServer :
    (client_id : ℕ) (packet : Packet) → Keeps IsServer (on_update client_id packet)
unfolding on_update
on_update-IsServer client_id packet s h =
    finish-IsServer client_id (handler packet.action client_id packet s).0 _
      (handler-IsServer packet.action client_id packet s h)
