-- ===== src/Server/Callback/TotalPlayersDataQuery.antt =====
-- TOTAL_PLAYERS_DATA_QUERY, vangers-srv/src/server/callback/total_players_data_query.rs.
use vangers_srv.Base.{ℕ, ◌+◌, ◌%◌, ◌^◌, Option, none, some, List, [], ◌∷◌, ◌++◌, Result}
use vangers_srv.Base.Exec.{Exec, pure, lift, require, gets, ◌>>=◌}
use vangers_srv.Protocol.{Packet, new}
use vangers_srv.Protocol.Actions.{Action}
use vangers_srv.Vanject.{pos_bytes}
use vangers_srv.Player.{Player, status_code}
use vangers_srv.Player.Body.{body_bytes}
use vangers_srv.Game.{Game, RemovedPlayer}
use vangers_srv.Server.{Server, find_game}
use vangers_srv.Server.Errors.{
  player_not_found, OnUpdateError, total_players_data_query_error, OnUpdateOk, response,
}

-- `b"[UNDEFINED]\0"`
abbrev pub undefined_name : List ℕ
undefined_name = b'[' ∷ b'U' ∷ b'N' ∷ b'D' ∷ b'E' ∷ b'F' ∷ b'I' ∷ b'N' ∷ b'E' ∷ b'D' ∷ b']' ∷ 0 ∷ []

-- What is sent of a player; of one without a bind or a body, nothing.
unfoldable pub player_data : Player → Option (List ℕ)
player_data p = elim p.bind [
  | none ↦ none
  | some id ↦ elim p.body [
    | none ↦ none
    | some body ↦ some (
        id
        ∷ status_code p.status
        ∷ elim p.world [ none ↦ 0 | some w ↦ w.id ]
        ∷ (pos_bytes p.pos
            ++ (elim p.auth [ none ↦ undefined_name | some auth ↦ auth.name ] ++ body_bytes body)))
  ]
]

unfoldable pub removed_player_data : RemovedPlayer → List ℕ
removed_player_data r =
    r.bind_id ∷ status_code r.status ∷ r.world ∷ (pos_bytes r.pos ++ (r.name ++ r.body))

-- The two loops: the number of players that are sent, and their data.
unfoldable pub players_data : List Player → ℕ × List ℕ
unfolding player_data
players_data [] = (0, [])
players_data (p ∷ ps) =
    let (count, rest) = players_data ps in
    elim (player_data p) [ none ↦ (count, rest) | some bytes ↦ (count + 1, bytes ++ rest) ]

unfoldable pub removed_players_data : List RemovedPlayer → ℕ × List ℕ
unfolding removed_player_data
removed_players_data [] = (0, [])
removed_players_data (r ∷ rs) =
    let (count, rest) = removed_players_data rs in (count + 1, removed_player_data r ++ rest)

-- `total_players_data_packet`; the count is a `u8`.
unfoldable pub total_players_data_packet : {E : Type 0} → Game → Result E Packet
unfolding players_data removed_players_data
total_players_data_packet g =
    let (count, current) = players_data g.players in
    let (removed_count, removed) = removed_players_data g.removed_players in
    new Action.total_list_of_players_data ((count + removed_count) % 2 ^ 8 ∷ (current ++ removed))

-- `total_players_data_query`
unfoldable pub total_players_data_query : ℕ → Packet → Exec Server OnUpdateError OnUpdateOk
total_players_data_query client_id packet = do
  found ← gets λ (s : Server). find_game client_id s.games
  (k, g) ← require found (total_players_data_query_error (player_not_found client_id))
  p ← lift (total_players_data_packet g)
  pure (response p)
