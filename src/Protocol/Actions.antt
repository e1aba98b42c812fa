-- ===== src/Protocol/Actions.antt =====
-- The packet types of vangers-srv/src/protocol.rs: codes, answers, and the conversions that the
-- `Primitive` derive makes from the enumeration.
use vangers_srv.Base.{
  ℕ, ◌≡◌, refl, Bool, true, false, Option, none, some, List, [], ◌∷◌, ◌==◌, ==→eq, find, find_sound,
}

-- `Action`
pub data Action : Type 0 where
  unknown create_object delete_object : Action
  update_object hide_object games_list_query : Action
  top_list_query attach_to_game restore_connection : Action
  close_socket register_name server_time_query : Action
  set_world leave_world set_position : Action
  total_players_data_query set_game_data get_game_data : Action
  set_player_data direct_sending item_transfer : Action
  games_list_response top_list_response total_list_of_players_data : Action
  attach_to_game_response restore_connection_response server_time : Action
  server_time_response set_world_response game_data_response : Action
  direct_receiving players_name players_position : Action
  players_world players_status players_data : Action
  players_rating world_snapshot_begin world_snapshot_end : Action
  item_state item_removed z_time_response : Action

-- `to_u8`: the discriminants.
unfoldable pub to_u8 : Action → ℕ
to_u8 unknown = 0x00
to_u8 create_object = 0x02
to_u8 delete_object = 0x04
to_u8 update_object = 0x08
to_u8 hide_object = 0x0c
to_u8 games_list_query = 0x81
to_u8 top_list_query = 0x82
to_u8 attach_to_game = 0x83
to_u8 restore_connection = 0x84
to_u8 close_socket = 0x86
to_u8 register_name = 0x88
to_u8 server_time_query = 0x89
to_u8 set_world = 0x8b
to_u8 leave_world = 0x8c
to_u8 set_position = 0x8d
to_u8 total_players_data_query = 0x91
to_u8 set_game_data = 0x92
to_u8 get_game_data = 0x93
to_u8 set_player_data = 0x94
to_u8 direct_sending = 0x95
to_u8 item_transfer = 0x96
to_u8 games_list_response = 0xc1
to_u8 top_list_response = 0xc2
to_u8 total_list_of_players_data = 0xcc
to_u8 attach_to_game_response = 0xc3
to_u8 restore_connection_response = 0xc4
to_u8 server_time = 0xc6
to_u8 server_time_response = 0xc7
to_u8 set_world_response = 0xc8
to_u8 game_data_response = 0xcd
to_u8 direct_receiving = 0xce
to_u8 players_name = 0xd5
to_u8 players_position = 0xcf
to_u8 players_world = 0xd1
to_u8 players_status = 0xd2
to_u8 players_data = 0xd3
to_u8 players_rating = 0xd4
to_u8 world_snapshot_begin = 0xd6
to_u8 world_snapshot_end = 0xd7
to_u8 item_state = 0xd8
to_u8 item_removed = 0xd9
to_u8 z_time_response = 0xe3

all_actions : List Action
all_actions =
    unknown ∷ create_object ∷ delete_object ∷ update_object ∷ hide_object ∷ games_list_query
    ∷ top_list_query ∷ attach_to_game ∷ restore_connection ∷ close_socket ∷ register_name
    ∷ server_time_query ∷ set_world ∷ leave_world ∷ set_position ∷ total_players_data_query
    ∷ set_game_data ∷ get_game_data ∷ set_player_data ∷ direct_sending ∷ item_transfer
    ∷ games_list_response ∷ top_list_response ∷ total_list_of_players_data ∷ attach_to_game_response
    ∷ restore_connection_response ∷ server_time ∷ server_time_response ∷ set_world_response
    ∷ game_data_response ∷ direct_receiving ∷ players_name ∷ players_position ∷ players_world
    ∷ players_status ∷ players_data ∷ players_rating ∷ world_snapshot_begin ∷ world_snapshot_end
    ∷ item_state ∷ item_removed ∷ z_time_response ∷ []

-- `from_u8`: the variant with that discriminant, if there is one.
unfoldable pub from_u8 : ℕ → Option Action
unfolding all_actions to_u8
from_u8 n = find (λ a. to_u8 a == n) all_actions

-- `action == Action::UNKNOWN`
unfoldable pub is_unknown : Action → Bool
is_unknown unknown = true
is_unknown _ = false

-- `is_lossy_realtime`
pub is_lossy_realtime : Action → Bool
is_lossy_realtime update_object = true
is_lossy_realtime server_time = true
is_lossy_realtime _ = false

-- `request_to_response`
unfoldable pub request_to_response : Action → Option Action
request_to_response games_list_query = some games_list_response
request_to_response top_list_query = some top_list_response
request_to_response attach_to_game = some attach_to_game_response
request_to_response restore_connection = some restore_connection_response
request_to_response server_time_query = some server_time
request_to_response total_players_data_query = some total_list_of_players_data
request_to_response register_name = some players_name
request_to_response set_player_data = some players_data
request_to_response set_game_data = none
request_to_response get_game_data = some game_data_response
request_to_response set_world = some set_world_response
request_to_response direct_sending = some direct_receiving
request_to_response _ = none

-- The code of an action is read back as that action.
pub from_u8-to_u8 : (a : Action) → from_u8 (to_u8 a) ≡ some a
unfolding from_u8
from_u8-to_u8 unknown = refl
from_u8-to_u8 _ = refl

-- An action that is read from a byte has that byte for its code.
pub to_u8-from_u8 : (n : ℕ) (a : Action) → from_u8 n ≡ some a → to_u8 a ≡ n
unfolding from_u8
to_u8-from_u8 n a h = ==→eq (to_u8 a) n (find_sound (λ b. to_u8 b == n) all_actions a h)
