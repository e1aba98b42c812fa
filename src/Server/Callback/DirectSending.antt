-- ===== src/Server/Callback/DirectSending.antt =====
-- DIRECT_SENDING, vangers-srv/src/server/callback/direct_sending.rs.
pub mod Messages
pub mod Addressed
pub mod Bounds
use vangers_srv.Base.{
  ℕ, ◌-◌, ◌/◌, ◌%◌, ◌^◌, Bool, true, false, not, ◌&&◌, Option, none, some, List, [], ◌∷◌, ◌++◌, ltb,
  leb, ◌==◌, if◌then◌else◌, length, drop, get_first_cstr, word_at, is_some, map, select,
}
use vangers_srv.Base.Exec
use vangers_srv.Base.Exec.{Exec, pure, lift, require, gets, check, convert, ◌>>=◌, ◌>>◌}
use vangers_srv.Protocol.{Packet}
use vangers_srv.Player.{Player, bind_mask}
use vangers_srv.Game.{Game}
use vangers_srv.Server.{Server, reliable, find_game, deliveries}
use vangers_srv.Server.Errors.{
  DirectSendingError, parse, string, client_is_out_of_games, player_not_found, player_not_bind,
  OnUpdateError, direct_sending_error, OnUpdateOk, complete,
}
use vangers_srv.Server.Callback.Answers.{answer}
use Messages.{limited}

-- `bind.mask() as u32 & mask != 0`: the mask of a bind has one bit.
unfoldable pub is_addressed : ℕ → ℕ → Bool
unfolding bind_mask
is_addressed mask id = mask / bind_mask id % 2 == 1

-- The loop over the players: the last bound player of the sender, and the clients that the mask names.
unfoldable pub sender : ℕ → List Player → Option Player
sender client_id [] = none
sender client_id (p ∷ ps) = elim (sender client_id ps) [
  | some q ↦ some q
  | none ↦ if is_some p.bind && p.client_id == client_id then some p else none
]

abbrev pub is_receiver : ℕ → ℕ → Player → Bool
is_receiver client_id mask p = elim p.bind [
  | none ↦ false
  | some id ↦ not (p.client_id == client_id) && is_addressed mask id
]

unfoldable pub receivers : ℕ → ℕ → List Player → List ℕ
unfolding is_addressed
receivers client_id mask ps = map (λ p. p.client_id) (select (is_receiver client_id mask) ps)

-- The sender's bind id; one without a name may not send.
unfoldable pub named_sender : ℕ → Game → Exec Server DirectSendingError ℕ
unfolding sender
named_sender client_id g = do
  player ← require (sender client_id g.players) (player_not_found client_id g.id)
  check (is_some player.bind && is_some player.auth) (player_not_bind client_id g.id)
  require player.bind (player_not_bind client_id g.id)

-- The receivers and the data of the packet that they get.
unfoldable pub message : ℕ → List ℕ → Exec Server DirectSendingError (List ℕ × List ℕ)
unfolding named_sender receivers limited
message client_id bytes = do
  check (not (ltb (length bytes) 6)) parse
  found ← gets λ (s : Server). find_game client_id s.games
  (k, g) ← require found (client_is_out_of_games client_id)
  mask ← lift (word_at bytes 0 4)
  player_id ← named_sender client_id g
  text ← require (get_first_cstr (drop 4 bytes)) string
  pure (receivers client_id mask g.players, player_id ∷ limited text)

-- `direct_sending`
unfoldable pub direct_sending : ℕ → Packet → Exec Server OnUpdateError OnUpdateOk
direct_sending client_id packet = do
  (ids, bytes) ← convert direct_sending_error (message client_id packet.bytes)
  p ← answer packet bytes
  Exec.update λ (s : Server). record s { sent = s.sent ++ deliveries reliable p ids s.clients }
  pure complete
