-- ===== src/Server/OnUpdate/Refused.antt =====
-- What a packet about an object that is refused leaves behind (callback/mod.rs).
use vangers_srv.Base.{ℕ, ◌≡◌, ap, ok, err}
use vangers_srv.Protocol.{Packet}
use vangers_srv.Protocol.Actions.{Action}
use vangers_srv.Server.{Server}
use vangers_srv.Server.Errors.{OnUpdateError}
use vangers_srv.Server.Callback.ItemTransfer.Atomic.{item_transfer_refused}
use vangers_srv.Server.Callback.UpdateObject.Atomic.{update_object_refused}
use vangers_srv.Server.Callback.DeleteObject.Atomic.{delete_object_refused}
use vangers_srv.Server.Callback.CreateObject.Atomic.{create_object_refused}
use vangers_srv.Server.OnUpdate.{handler, finish, on_update}

-- The actions that create, update, delete and hand over objects.
pub data IsObjectAction : Action → Type 0 where
  creates : IsObjectAction Action.create_object
  updates : IsObjectAction Action.update_object
  deletes : IsObjectAction Action.delete_object
  transfers : IsObjectAction Action.item_transfer

handler_refused :
    (a : Action) (client_id : ℕ) (packet : Packet) (s : Server) (e : OnUpdateError)
    → IsObjectAction a
    → (handler a client_id packet s).0 ≡ err e
    → (handler a client_id packet s).1 ≡ s
unfolding handler
handler_refused _ client_id packet s e creates h = create_object_refused client_id packet s e h
handler_refused _ client_id packet s e updates h = update_object_refused client_id packet s e h
handler_refused _ client_id packet s e deletes h = delete_object_refused client_id packet s e h
handler_refused _ client_id packet s e transfers h = item_transfer_refused client_id packet s e h

-- When the handler of a packet that creates, updates, deletes or hands over an object returns an error,
-- whatever the packet and the state, the server goes on as it was: no game, no object and no player
-- changed, and nothing was sent, not even an answer.
pub on_update_refused :
    (client_id : ℕ) (packet : Packet) (s : Server) (e : OnUpdateError)
    → IsObjectAction packet.action
    → (handler packet.action client_id packet s).0 ≡ err e
    → on_update client_id packet s ≡ (ok tt, s)
unfolding on_update finish
on_update_refused client_id packet s e k h =
    rw h (ap (λ t. (ok tt, t)) (handler_refused packet.action client_id packet s e k h))
