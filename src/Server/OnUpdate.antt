-- ===== src/Server/OnUpdate.antt =====
-- The dispatch of a client's packet, vangers-srv/src/server/callback/mod.rs.
pub mod Queries
pub mod Sessions
pub mod Attached
pub mod Valid
pub mod Refused
pub mod Settings
pub mod Safe
use vangers_srv.Base.{ℕ, none, some, [], ◌∷◌, ◌++◌, ◌==◌, find, Result, ok, err, panic}
use vangers_srv.Base.Exec.{Exec, raise}
use vangers_srv.Protocol.{Packet}
use vangers_srv.Protocol.Actions.{Action}
use vangers_srv.Server.{Server, reliable, notify_all}
use vangers_srv.Server.Errors.{
  OnUpdateError, not_implemented_action, OnUpdateOk, broadcast, response, complete,
}
use vangers_srv.Server.Callback.AttachToGame.{attach_to_game}
use vangers_srv.Server.Callback.RestoreConnection.{restore_connection}
use vangers_srv.Server.Callback.ServerTimeQuery.{server_time_query}
use vangers_srv.Server.Callback.GamesListQuery.{games_list_query}
use vangers_srv.Server.Callback.TopListQuery.{top_list_query}
use vangers_srv.Server.Callback.TotalPlayersDataQuery.{total_players_data_query}
use vangers_srv.Server.Callback.RegisterName.{register_name}
use vangers_srv.Server.Callback.SetPlayerData.{set_player_data}
use vangers_srv.Server.Callback.SetPosition.{set_position}
use vangers_srv.Server.Callback.SetGameData.{set_game_data}
use vangers_srv.Server.Callback.GetGameData.{get_game_data}
use vangers_srv.Server.Callback.CreateObject.{create_object}
use vangers_srv.Server.Callback.SetWorld.{set_world}
use vangers_srv.Server.Callback.LeaveWorld.{leave_world}
use vangers_srv.Server.Callback.UpdateObject.{update_object}
use vangers_srv.Server.Callback.DeleteObject.{delete_object}
use vangers_srv.Server.Callback.ItemTransfer.{item_transfer}
use vangers_srv.Server.Callback.DirectSending.{direct_sending}
use vangers_srv.Server.Callback.CloseSocket.{close_socket}

-- The handler of an action.
unfoldable pub handler : Action → ℕ → Packet → Exec Server OnUpdateError OnUpdateOk
handler Action.attach_to_game = attach_to_game
handler Action.restore_connection = restore_connection
handler Action.server_time_query = server_time_query
handler Action.games_list_query = games_list_query
handler Action.top_list_query = top_list_query
handler Action.total_players_data_query = total_players_data_query
handler Action.register_name = register_name
handler Action.set_player_data = set_player_data
handler Action.set_position = set_position
handler Action.set_game_data = set_game_data
handler Action.get_game_data = get_game_data
handler Action.create_object = create_object
handler Action.set_world = set_world
handler Action.leave_world = λ client_id packet. leave_world client_id
handler Action.update_object = update_object
handler Action.delete_object = delete_object
handler Action.item_transfer = item_transfer
handler Action.direct_sending = direct_sending
handler Action.close_socket = λ client_id packet. close_socket client_id
handler _ = λ client_id packet. raise (not_implemented_action packet)

-- An answer goes to the sender, if it is still connected.
unfoldable pub send_response : ℕ → Packet → Server → Server
send_response client_id p s = elim (find (λ c. c.id == client_id) s.clients) [
  | none ↦ s
  | some c ↦ record s {
    sent = s.sent ++ record { to = client_id; channel = reliable; packet = p } ∷ [];
  }
]

-- What comes of a handler's result; an error is only logged, and a panic ends the server.
unfoldable pub finish : ℕ → Result OnUpdateError OnUpdateOk → Exec Server OnUpdateError (Unit {0})
finish client_id (ok (response p)) s = (ok tt, send_response client_id p s)
finish client_id (ok (broadcast p)) s = notify_all client_id p s
finish client_id (ok complete) s = (ok tt, s)
finish client_id (err e) s = (ok tt, s)
finish client_id panic s = (panic, s)

-- `on_update`
unfoldable pub on_update : ℕ → Packet → Exec Server OnUpdateError (Unit {0})
on_update client_id packet s =
    let (r, s') = handler packet.action client_id packet s in finish client_id r s'
