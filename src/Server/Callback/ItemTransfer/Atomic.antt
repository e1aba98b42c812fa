-- ===== src/Server/Callback/ItemTransfer/Atomic.antt =====
-- A transfer happens as a whole or not at all (callback/item_transfer.rs).
use vangers_srv.Base.{◌≡◌, err, ℕ, false, arith, map_err}
use vangers_srv.Base.Exec.{convert}
use vangers_srv.Base.Atomic.{
  NeverFails, IsAtomic, lift-then, inspect-then, then-never, never-then, convert-IsAtomic,
  NeverFails-IsAtomic,
}
use vangers_srv.Protocol.{Packet}
use vangers_srv.Server.Errors.{OnUpdateError, player_not_found, item_transfer_error}
use vangers_srv.Server.Lending.{in_game-IsAtomic}
use vangers_srv.Server.Notices.{notify_world-NeverFails}
use vangers_srv.Server.{Server, reliable, in_game, notify_world}
use vangers_srv.Server.Callback.Packets.{item_state_packet-ne-err}
use vangers_srv.Server.Callback.TransferPacket.{ItemTransfer, parse_item_transfer, validate}
use vangers_srv.Server.Callback.ItemTransfer.{owned_by, exchange, transfer_in_game, item_transfer}
use vangers_srv.Server.Callback.ItemTransfer.Approval.{approve}

exchange-NeverFails : (t : ItemTransfer) (bind_id : ℕ) → NeverFails (exchange t bind_id)
unfolding exchange
exchange-NeverFails t bind_id g e h =
    ground (arith, item_state_packet-ne-err t.old_id (owned_by bind_id t.new_vanject) e)

-- A transfer that is refused leaves the game as it was.
pub transfer_in_game-IsAtomic :
    (client_id : ℕ) (t : ItemTransfer) → IsAtomic (transfer_in_game client_id t)
unfolding transfer_in_game
transfer_in_game-IsAtomic client_id t =
    inspect-then (approve client_id t) (exchange t)
      (λ bind_id. NeverFails-IsAtomic (exchange t bind_id) (exchange-NeverFails t bind_id))

item_transfer-IsAtomic :
    (client_id : ℕ) (packet : Packet) → IsAtomic (item_transfer client_id packet)
unfolding item_transfer
item_transfer-IsAtomic client_id packet =
    lift-then (map_err item_transfer_error (parse_item_transfer packet.bytes)) _ (λ t.
      lift-then (map_err item_transfer_error (validate t)) _ (λ u.
        then-never
          (convert item_transfer_error
            (in_game client_id (err (player_not_found client_id)) (transfer_in_game client_id t)))
          _
          (convert-IsAtomic item_transfer_error
            (in_game client_id (err (player_not_found client_id)) (transfer_in_game client_id t))
            (in_game-IsAtomic client_id (err (player_not_found client_id))
              (transfer_in_game client_id t) (transfer_in_game-IsAtomic client_id t)))
          (λ r.
            never-then (notify_world reliable client_id r.0 r.1 false) _
              (notify_world-NeverFails OnUpdateError reliable client_id r.0 r.1 false)
              (λ v s e h. cc))))

-- When `item_transfer` returns an error, whatever the request and the state, the server is as it was: no
-- game, no object and no player changed, and nothing was sent.
pub item_transfer_refused :
    (client_id : ℕ) (packet : Packet) (s : Server) (e : OnUpdateError)
    → (item_transfer client_id packet s).0 ≡ err e
    → (item_transfer client_id packet s).1 ≡ s
item_transfer_refused client_id packet = item_transfer-IsAtomic client_id packet
