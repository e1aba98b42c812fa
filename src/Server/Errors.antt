-- ===== src/Server/Errors.antt =====
-- The errors of the handlers and their results, vangers-srv/src/server/callback/*.rs.
use vangers_srv.Base.{ℕ}
use vangers_srv.Protocol.{Packet}
use vangers_srv.Protocol.Actions.{Action}
use vangers_srv.Vanject.{VanjectError}
use vangers_srv.Game.{ConfigError}
use vangers_srv.Game.Config.{GameType}

pub data ItemTransferError : Type 0 where
  packet_too_small : ℕ → ItemTransferError
  invalid_kind : ℕ → ItemTransferError
  slice_to_vanject_parse : VanjectError → ItemTransferError
  player_not_found : ℕ → ItemTransferError
  player_not_bind : ℕ → ItemTransferError
  player_world_empty : ℕ → ItemTransferError
  type_mismatch : ℕ → ℕ → ℕ → ItemTransferError
  linked_id_mismatch : ℕ → ℕ → ItemTransferError
  new_item_body_too_small : ItemTransferError
  invalid_delete_marker : ℕ → ItemTransferError
  item_id_pair_mismatch : ℕ → ℕ → ItemTransferError
  old_item_not_found : ℕ → ItemTransferError
  new_item_already_exists : ℕ → ItemTransferError
  not_owner : ℕ → ℕ → ItemTransferError
  wrong_world : ℕ → ℕ → ℕ → ItemTransferError

pub data CreateObjectError : Type 0 where
  slice_to_vanject_parse : VanjectError → CreateObjectError
  player_not_found : ℕ → CreateObjectError
  player_not_bind : ℕ → CreateObjectError
  paired_item_already_exists : ℕ → ℕ → CreateObjectError

pub data UpdateObjectError : Type 0 where
  slice_too_small : UpdateObjectError
  slice_to_vanject_parse : VanjectError → UpdateObjectError
  player_not_found : ℕ → UpdateObjectError
  vanject_not_found : ℕ → UpdateObjectError
  player_not_bind : ℕ → UpdateObjectError
  player_world_empty : ℕ → UpdateObjectError
  wrong_world : ℕ → ℕ → ℕ → UpdateObjectError
  not_owner : ℕ → ℕ → UpdateObjectError

pub data DeleteObjectError : Type 0 where
  player_not_found : ℕ → DeleteObjectError
  player_not_bind : ℕ → DeleteObjectError
  not_owner : ℕ → ℕ → DeleteObjectError
  legacy_item_transfer_delete : ℕ → DeleteObjectError

-- `BorrowWorld` is left out: no code borrows a world mutably, so a borrow never fails.
pub data LeaveWorldError : Type 0 where
  player_not_found : ℕ → LeaveWorldError
  player_not_bind : ℕ → LeaveWorldError
  world_empty : ℕ → LeaveWorldError

pub data CloseSocketError : Type 0 where
  player_not_found : ℕ → CloseSocketError
  player_not_bind : ℕ → CloseSocketError

pub data SetPositionError : Type 0 where
  invalid_payload_size : ℕ → ℕ → SetPositionError
  player_not_found : ℕ → SetPositionError

pub data RestoreConnectionError : Type 0 where
  payload_invalid : RestoreConnectionError

pub data AttachToGameError : Type 0 where
  not_exists : ℕ → AttachToGameError
  id_empty : AttachToGameError
  full : ℕ → AttachToGameError

pub data RegisterNameError : Type 0 where
  player_not_found : ℕ → RegisterNameError
  name_or_password_parse : RegisterNameError
  player_not_bind : ℕ → RegisterNameError
  name_is_null : RegisterNameError

pub data SetPlayerDataError : Type 0 where
  player_not_found : ℕ → SetPlayerDataError
  player_not_bind : ℕ → SetPlayerDataError
  slice_to_body_parse : GameType → SetPlayerDataError

pub data SetGameDataError : Type 0 where
  name_parse : SetGameDataError
  name_empty : SetGameDataError
  slice_to_game_config_parse : ConfigError → SetGameDataError
  player_not_found : ℕ → SetGameDataError
  already_configured : ℕ → SetGameDataError

pub data GetGameDataError : Type 0 where
  player_not_found : ℕ → GetGameDataError
  not_configured : ℕ → GetGameDataError

pub data DirectSendingError : Type 0 where
  parse : DirectSendingError
  string : DirectSendingError
  client_is_out_of_games : ℕ → DirectSendingError
  player_not_found : ℕ → ℕ → DirectSendingError
  player_not_bind : ℕ → ℕ → DirectSendingError

pub data TotalPlayersDataQueryError : Type 0 where
  player_not_found : ℕ → TotalPlayersDataQueryError

pub data SetWorldError : Type 0 where
  player_not_found : ℕ → SetWorldError
  player_not_bind : ℕ → SetWorldError
  invalid_world_size : ℕ → ℕ → SetWorldError

pub data TopListQueryError : Type 0 where
  mode_empty : TopListQueryError

-- `OnUpdateError`
pub data OnUpdateError : Type 0 where
  not_implemented_action : Packet → OnUpdateError
  response_packet_type_not_exist : Action → OnUpdateError
  create_object_error : CreateObjectError → OnUpdateError
  update_object_error : UpdateObjectError → OnUpdateError
  delete_object_error : DeleteObjectError → OnUpdateError
  item_transfer_error : ItemTransferError → OnUpdateError
  leave_world_error : LeaveWorldError → OnUpdateError
  close_socket_error : CloseSocketError → OnUpdateError
  set_position_error : SetPositionError → OnUpdateError
  restore_connection_error : RestoreConnectionError → OnUpdateError
  attach_to_game_error : AttachToGameError → OnUpdateError
  register_name_error : RegisterNameError → OnUpdateError
  set_player_data_error : SetPlayerDataError → OnUpdateError
  set_game_data_error : SetGameDataError → OnUpdateError
  get_game_data_error : GetGameDataError → OnUpdateError
  direct_sending_error : DirectSendingError → OnUpdateError
  total_players_data_query_error : TotalPlayersDataQueryError → OnUpdateError
  set_world_error : SetWorldError → OnUpdateError
  top_list_query_error : TopListQueryError → OnUpdateError

-- `OnUpdateOk`
pub data OnUpdateOk : Type 0 where
  broadcast : Packet → OnUpdateOk
  response : Packet → OnUpdateOk
  complete : OnUpdateOk
