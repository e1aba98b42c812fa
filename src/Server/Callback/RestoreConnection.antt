-- ===== src/Server/Callback/RestoreConnection.antt =====
-- RESTORE_CONNECTION, vangers-srv/src/server/callback/restore_connection.rs.
pub mod Restored
use vangers_srv.Base.{
  ℕ, Bool, true, false, not, Option, none, some, List, [], ◌∷◌, ◌==◌, if◌then◌else◌, select, length,
  byte_at, word_at, Map, lookup, modify, is_some, ok,
}
use vangers_srv.Base.Exec
use vangers_srv.Base.Exec.{Exec, pure, lift, check, ◌>>=◌, ◌>>◌}
use vangers_srv.Protocol.{Packet, new}
use vangers_srv.Protocol.Actions.{Action}
use vangers_srv.Player.{Player}
use vangers_srv.Game.{Game}
use vangers_srv.Server.{Server, Client}
use vangers_srv.Server.Errors.{
  OnUpdateError, restore_connection_error, payload_invalid, OnUpdateOk, response,
}

-- The player has the bind id.
abbrev pub has_bind : ℕ → Player → Bool
has_bind player_id p = elim p.bind [ none ↦ false | some id ↦ id == player_id ]

-- The first player of the bind id gets the new client, and no deadline; the result is the old client.
unfoldable pub take_over : ℕ → ℕ → List Player → Option ℕ × List Player
take_over player_id client_id [] = (none, [])
take_over player_id client_id (p ∷ ps) =
    let (old, ps') = take_over player_id client_id ps in
    if has_bind player_id p
    then (some p.client_id, record p { client_id = client_id; disconnected_until = none } ∷ ps)
    else (old, p ∷ ps')

-- The search for the game by its id and what is done with its player.
unfoldable pub restore : {E : Type 0} → ℕ → ℕ → ℕ → Exec Server E (Option ℕ)
restore game_id player_id client_id s = elim (lookup game_id s.games) [
  | none ↦ (ok none, s)
  | some g ↦
      let (old, players) = take_over player_id client_id g.players in
      (ok old, record s { games = modify game_id (λ g'. record g' { players = players }) s.games })
]

-- The old client is dropped, if it is another one.
unfoldable pub drop_client : Option ℕ → ℕ → List Client → List Client
drop_client none client_id clients = clients
drop_client (some old) client_id clients =
    if old == client_id then clients else select (λ c. not (c.id == old)) clients

-- `restore_connection`
unfoldable pub restore_connection : ℕ → Packet → Exec Server OnUpdateError OnUpdateOk
restore_connection client_id packet = do
  check (length packet.bytes == 5) (restore_connection_error payload_invalid)
  game_id ← lift (word_at packet.bytes 0 4)
  player_id ← lift (byte_at packet.bytes 4)
  old ← restore game_id player_id client_id
  Exec.update λ (s : Server). record s { clients = drop_client old client_id s.clients }
  answer ← lift (new Action.restore_connection_response ((if is_some old then 1 else 0) ∷ []))
  pure (response answer)
