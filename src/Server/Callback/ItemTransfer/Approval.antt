-- ===== src/Server/Callback/ItemTransfer/Approval.antt =====
-- The checks of ITEM_TRANSFER against the game, vangers-srv/src/server/callback/item_transfer.rs. They
-- only read.
use vangers_srv.Base.{
  ℕ, not, ◌&&◌, ◌==◌, lookup, contains_key, Result, ok, ok_or, guard, ◌>>=◌, ◌>>◌,
}
use vangers_srv.Vanject.Ids.{get_world}
use vangers_srv.Game.{Game, get_player}
use vangers_srv.Server.Errors.{
  ItemTransferError, player_not_found, player_not_bind, player_world_empty, old_item_not_found,
  new_item_already_exists, not_owner, wrong_world,
}
use vangers_srv.Server.Callback.TransferPacket.{ItemTransfer, drop_item}

-- The checks of the objects, for the bind id and the world of the player.
unfoldable pub approve_items : ItemTransfer → ℕ → ℕ → Game → Result ItemTransferError (Unit {0})
approve_items t bind_id world_id g = do
  guard (not (contains_key t.new_vanject.id g.vanjects)) (new_item_already_exists t.new_vanject.id)
  old ← ok_or (lookup t.old_id g.vanjects) (old_item_not_found t.old_id)
  guard (get_world old.id == world_id) (wrong_world t.old_id (get_world old.id) world_id)
  guard (get_world t.new_vanject.id == world_id)
      (wrong_world t.new_vanject.id (get_world t.new_vanject.id) world_id)
  guard (not (t.kind == drop_item && not (old.player_bind_id == bind_id)))
      (not_owner t.old_id bind_id)

-- All checks; the result is the player's bind id.
unfoldable pub approve : ℕ → ItemTransfer → Game → Result ItemTransferError ℕ
unfolding approve_items
approve client_id t g = do
  player ← ok_or (get_player client_id g.players) (player_not_found client_id)
  bind_id ← ok_or player.bind (player_not_bind client_id)
  world ← ok_or player.world (player_world_empty client_id)
  approve_items t bind_id world.id g
  ok bind_id
