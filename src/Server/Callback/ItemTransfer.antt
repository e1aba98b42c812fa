-- ===== src/Server/Callback/ItemTransfer.antt =====
-- ITEM_TRANSFER, vangers-srv/src/server/callback/item_transfer.rs. Log records are left out.
pub mod Approval
pub mod Accepted
pub mod Atomic
pub mod Races
use vangers_srv.Base.{
  err, ℕ, Bool, true, false, not, ◌&&◌, Option, none, some, ◌==◌, lookup, contains_key, remove,
  insert, map_err,
}
use vangers_srv.Base.Exec
use vangers_srv.Base.Exec.{Exec, pure, lift, inspect, require, gets, check, convert, ◌>>=◌, ◌>>◌}
use vangers_srv.Protocol.{Packet}
use vangers_srv.Vanject.{Vanject}
use vangers_srv.Vanject.Ids.{get_world}
use vangers_srv.Game.{Game, get_player}
use vangers_srv.Server.{Server, reliable, in_game, notify_world}
use vangers_srv.Server.Callback.Items.{item_state_packet}
use vangers_srv.Server.Callback.TransferPacket.{
  ItemTransfer, drop_item, parse_item_transfer, validate,
}
use Approval.{approve}
use vangers_srv.Server.Errors.{
  ItemTransferError, player_not_found, player_not_bind, player_world_empty, old_item_not_found,
  new_item_already_exists, not_owner, wrong_world, OnUpdateError, item_transfer_error, OnUpdateOk,
  complete,
}

-- The new object, owned by the player that asked.
abbrev pub owned_by : ℕ → Vanject → Vanject
owned_by bind_id v = record v { player_bind_id = bind_id }

-- The two writes of a transfer, with the packet that is built between them.
unfoldable pub exchange : ItemTransfer → ℕ → Exec Game ItemTransferError (ℕ × Packet)
exchange t bind_id = do
  Exec.update λ (g : Game). record g { vanjects = remove t.old_id g.vanjects }
  packet ← lift (item_state_packet t.old_id (owned_by bind_id t.new_vanject))
  Exec.update λ (g : Game). record g {
    vanjects = insert t.new_vanject.id (owned_by bind_id t.new_vanject) g.vanjects;
  }
  pure (get_world t.new_vanject.id, packet)

-- What happens in the sender's game, from the look at the player on.
unfoldable pub transfer_in_game : ℕ → ItemTransfer → Exec Game ItemTransferError (ℕ × Packet)
transfer_in_game client_id t = do bind_id ← inspect (approve client_id t); exchange t bind_id

-- `item_transfer`
unfoldable pub item_transfer : ℕ → Packet → Exec Server OnUpdateError OnUpdateOk
item_transfer client_id packet = do
  transfer ← lift (map_err item_transfer_error (parse_item_transfer packet.bytes))
  lift (map_err item_transfer_error (validate transfer))
  (world, apply_packet) ←
      convert item_transfer_error
        (in_game client_id (err (player_not_found client_id)) (transfer_in_game client_id transfer))
  notify_world reliable client_id world apply_packet false
  pure complete
