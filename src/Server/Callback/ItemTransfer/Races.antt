-- ===== src/Server/Callback/ItemTransfer/Races.antt =====
-- What a transfer does to every object, and two transfers of one item (callback/item_transfer.rs).
use vangers_srv.Base.{
  ℕ, ◌≡◌, ◌≢◌, refl, ◌∙◌, sym, subst, none, some, arith, ◌==◌, if◌then◌else◌, Map, lookup, remove,
  lookup-insert, lookup-remove, ok,
}
use vangers_srv.Protocol.{Packet}
use vangers_srv.Vanject.{Vanject}
use vangers_srv.Game.{Game}
use vangers_srv.Server.Callback.TransferPacket.{ItemTransfer}
use vangers_srv.Server.Callback.ItemTransfer.{owned_by, transfer_in_game}
use vangers_srv.Server.Callback.ItemTransfer.Accepted.{Accepts, transferred, transferred-Accepts}

-- The objects of the game after the exchange of an old item by a new one.
pub Exchanged : ItemTransfer → ℕ → Map Vanject → Map Vanject → Type 0
Exchanged t bind_id before after =
    (id : ℕ)
    → lookup id after ≡ (
        if t.new_vanject.id == id
        then some (owned_by bind_id t.new_vanject)
        else if id == t.old_id
        then none
        else lookup id before)

transferred-Exchanged :
    (t : ItemTransfer) (bind_id : ℕ) (g : Game)
    → Exchanged t bind_id g.vanjects (transferred g t bind_id).vanjects
unfolding Exchanged
transferred-Exchanged t bind_id g id =
    rw
      (
        lookup-insert t.new_vanject.id id (owned_by bind_id t.new_vanject)
            (remove t.old_id g.vanjects),
        lookup-remove t.old_id id g.vanjects,
      )
      refl

old-ne-new :
    (client_id : ℕ) (t : ItemTransfer) (g : Game) (bind_id : ℕ)
    → Accepts client_id t g bind_id
    → t.new_vanject.id ≢ t.old_id
old-ne-new client_id t g bind_id a e = ground (arith, a.fresh, a.present)

-- After a transfer that succeeds, the conditions of a transfer held for the player's bind id, and
-- the table of objects is the old one with the old item gone and the new item in, owned by the
-- player; every other object is as it was.
pub succeeded-Exchanged :
    (client_id : ℕ) (t : ItemTransfer) (g : Game) (r : ℕ × Packet)
    → (transfer_in_game client_id t g).0 ≡ ok r
    → (bind_id : ℕ) × Accepts client_id t g bind_id
      × Exchanged t bind_id g.vanjects (transfer_in_game client_id t g).1.vanjects
succeeded-Exchanged client_id t g r h =
    let (bind_id, a, same) = transferred-Accepts client_id t g r h in
    (
      bind_id,
      a,
      subst (λ g'. Exchanged t bind_id g.vanjects g'.vanjects) (sym same)
          (transferred-Exchanged t bind_id g),
    )

old_gone :
    (client_id : ℕ) (t : ItemTransfer) (g : Game) (r : ℕ × Packet)
    → (transfer_in_game client_id t g).0 ≡ ok r
    → lookup t.old_id (transfer_in_game client_id t g).1.vanjects ≡ none
unfolding Exchanged
old_gone client_id t g r h =
    let (bind_id, a, same) = succeeded-Exchanged client_id t g r h in
    same t.old_id ∙ ground (arith, old-ne-new client_id t g bind_id a)

-- When two transfers of the same old item run one after the other on a game and the first
-- succeeds, the second does not succeed, whichever players ask and whatever new items they name.
pub one_winner :
    (first second : ℕ) (t u : ItemTransfer) (g : Game) (r q : ℕ × Packet)
    → t.old_id ≡ u.old_id
    → (transfer_in_game first t g).0 ≡ ok r
    → (transfer_in_game second u (transfer_in_game first t g).1).0 ≢ ok q
one_winner first second t u g r q same h k =
    let g' = (transfer_in_game first t g).1 in
    let (bind_id, a, e) = transferred-Accepts second u g' q k in
    ground (arith, old_gone first t g r h, a.present)
