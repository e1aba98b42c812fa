-- ===== src/Server/Callback/Packets.antt =====
-- Making a packet of an object gives no error: it gives the packet, or it panics on a size that does
-- not fit (callback/*.rs, protocol.rs).
use vangers_srv.Base.{ℕ, ◌≢◌, arith, List, err}
use vangers_srv.Protocol.{new}
use vangers_srv.Protocol.Actions.{Action}
use vangers_srv.Vanject.{Vanject, vanject_bytes}
use vangers_srv.Server.Callback.Items.{item_state_packet, item_removed_packet}
use vangers_srv.Server.Callback.UpdateObject.{state_packet}

module _ {E : Type 0} where
  pub new-ne-err : (a : Action) (bytes : List ℕ) (e : E) → new a bytes ≢ err e
  unfolding new
  new-ne-err a bytes e h = ground arith

  pub item_state_packet-ne-err : (id : ℕ) (v : Vanject) (e : E) → item_state_packet id v ≢ err e
  unfolding item_state_packet
  item_state_packet-ne-err id v e h = new-ne-err _ _ e h

  pub item_removed_packet-ne-err :
      (v : Vanject) (reason : ℕ) (e : E) → item_removed_packet v reason ≢ err e
  unfolding item_removed_packet
  item_removed_packet-ne-err v reason e h = new-ne-err _ _ e h

  pub state_packet-ne-err : (v : Vanject) (e : E) → state_packet v ≢ err e
  unfolding state_packet
  state_packet-ne-err v e h =
      ground
        (arith, item_state_packet-ne-err 0 v e, new-ne-err Action.update_object (vanject_bytes v) e)
