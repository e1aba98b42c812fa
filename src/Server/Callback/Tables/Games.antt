-- ===== src/Server/Callback/Tables/Games.antt =====
-- What the handlers do in a game keeps its table of objects in order (callback/*.rs).
use vangers_srv.Base.{ℕ, ap, ◌∙◌, sym, subst, List, Result-cases, inl, inr, insert, remove}
use vangers_srv.Base.Keeps.{Keeps}
use vangers_srv.Vanject.{Vanject}
use vangers_srv.Vanject.Relay.{update_from_slice_inv}
use vangers_srv.Game.{Game}
use vangers_srv.Game.Objects.{
  IsStored, IsTable, lookup-IsTable, retain_keys-IsTable, remove-IsTable, insert-IsTable,
  modify-IsTable,
}
use vangers_srv.Server.Errors.{ItemTransferError}
use vangers_srv.Server.Callback.Items.{item_state_packet}
use vangers_srv.Server.Callback.TransferPacket.{ItemTransfer}
use vangers_srv.Server.Callback.ItemTransfer.{exchange, transfer_in_game, owned_by}
use vangers_srv.Server.Callback.ItemTransfer.Approval.{approve}
use vangers_srv.Server.Callback.UpdateObject.{update_in_game}
use vangers_srv.Server.Callback.UpdateObject.Accepted.{update_cases}
use vangers_srv.Server.Callback.DeleteObject.{delete_in_game}
use vangers_srv.Server.Callback.DeleteObject.Ownership.{delete_cases}
use vangers_srv.Server.Callback.CreateObject.{create_in_game}
use vangers_srv.Server.Callback.CreateObject.Created.{create_in_game-vanjects}
use vangers_srv.Server.Callback.LeaveWorld.{leave_in_game}
use vangers_srv.Server.Callback.LeaveWorld.Leaver.{leaver}
use vangers_srv.Server.Callback.LeaveWorld.Cleared.{leave_cleared}

exchange-IsStored : (t : ItemTransfer) (bind_id : ℕ) → Keeps IsStored (exchange t bind_id)
unfolding exchange
exchange-IsStored t bind_id g h =
    let removed = remove-IsTable t.old_id g.vanjects h in
    elim (Result-cases
      (item_state_packet {E = ItemTransferError} t.old_id (owned_by bind_id t.new_vanject))) [
        | inl (p, e) ↦
            rw e
              (insert-IsTable (owned_by bind_id t.new_vanject) (remove t.old_id g.vanjects) removed)
        | inr (inl (d, e)) ↦ rw e removed
        | inr (inr e) ↦ rw e removed
      ]

pub transfer_in_game-IsStored :
    (client_id : ℕ) (t : ItemTransfer) → Keeps IsStored (transfer_in_game client_id t)
unfolding transfer_in_game
transfer_in_game-IsStored client_id t g h = elim (Result-cases (approve client_id t g)) [
  | inl (b, e) ↦ rw e (exchange-IsStored t b g h)
  | inr (inl (d, e)) ↦ rw e h
  | inr (inr e) ↦ rw e h
]

pub update_in_game-IsStored :
    (client_id vanject_id : ℕ) (bytes : List ℕ)
    → Keeps IsStored (update_in_game client_id vanject_id bytes)
update_in_game-IsStored client_id vanject_id bytes g h =
    elim (update_cases client_id vanject_id bytes g) [
      | inr same ↦ subst IsStored (sym same) h
      | inl (b, v, v', a, e, same) ↦
          let (long, named, kept) = update_from_slice_inv v v' bytes e in
          subst IsStored (sym same) (
            modify-IsTable vanject_id _ g.vanjects
              (ap (λ w. w.id) kept ∙ lookup-IsTable vanject_id v g.vanjects h a.stored) h)
    ]

pub delete_in_game-IsStored :
    (client_id vanject_id : ℕ) (bytes : List ℕ)
    → Keeps IsStored (delete_in_game client_id vanject_id bytes)
delete_in_game-IsStored client_id vanject_id bytes g h =
    elim (delete_cases client_id vanject_id bytes g) [
      | inr same ↦ subst IsStored (sym same) h
      | inl (d, same) ↦ subst IsStored (sym same) (remove-IsTable vanject_id g.vanjects h)
    ]

pub create_in_game-IsStored :
    (client_id : ℕ) (v : Vanject) → Keeps IsStored (create_in_game client_id v)
create_in_game-IsStored client_id v g h =
    subst IsTable (sym (create_in_game-vanjects client_id v g)) h

pub insert-IsStored :
    (v : Vanject) (g : Game)
    → IsStored g
    → IsStored (record g { vanjects = insert v.id v g.vanjects })
insert-IsStored v g h = insert-IsTable v g.vanjects h

pub leave_in_game-IsStored : (client_id : ℕ) → Keeps IsStored (leave_in_game client_id)
unfolding leave_in_game
leave_in_game-IsStored client_id g h = elim (Result-cases (leaver client_id g)) [
  | inl ((b, p), e) ↦
      subst (λ r. IsStored r.1) (sym (leave_cleared client_id g b p e))
        (retain_keys-IsTable _ g.vanjects h)
  | inr (inl (d, e)) ↦ rw e h
  | inr (inr e) ↦ rw e h
]
