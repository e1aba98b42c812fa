-- ===== src/Server/Callback/ItemTransfer/Accepted.antt =====
-- Which transfers a game accepts, and what comes out (callback/item_transfer.rs).
use vangers_srv.Base.{
  ℕ, ◌≡◌, refl, inl, inr, none, some, arith, lookup, insert, remove, contains_key-lookup, ok,
  Option-cases, Result-cases,
}
use vangers_srv.Protocol.{Packet}
use vangers_srv.Vanject.{Vanject}
use vangers_srv.Vanject.Ids.{get_world}
use vangers_srv.Player.{Player, World}
use vangers_srv.Game.{Game, get_player}
use vangers_srv.Server.Errors.{ItemTransferError}
use vangers_srv.Server.Callback.Items.{item_state_packet}
use vangers_srv.Server.Callback.TransferPacket.{ItemTransfer, drop_item}
use vangers_srv.Server.Callback.ItemTransfer.{owned_by, exchange, transfer_in_game}
use vangers_srv.Server.Callback.ItemTransfer.Approval.{approve, approve_items}

-- The conditions of a transfer, in a game.
pub record Accepts (client_id : ℕ) (t : ItemTransfer) (g : Game) (bind_id : ℕ) : Type 0 where
  pub player : Player
  pub world : World
  pub old : Vanject
  pub found : get_player client_id g.players ≡ some player
  pub bound : player.bind ≡ some bind_id
  pub placed : player.world ≡ some world
  pub fresh : lookup t.new_vanject.id g.vanjects ≡ none
  pub present : lookup t.old_id g.vanjects ≡ some old
  pub old_world : get_world old.id ≡ world.id
  pub new_world : get_world t.new_vanject.id ≡ world.id
  pub owner : (t.kind ≡ drop_item → old.player_bind_id ≡ bind_id)

-- The game with the new object, owned by the player, in the place of the old one.
abbrev pub transferred : Game → ItemTransfer → ℕ → Game
transferred g t bind_id = record g {
  vanjects = insert t.new_vanject.id (owned_by bind_id t.new_vanject) (remove t.old_id g.vanjects);
}

approve_items-Accepts :
    (t : ItemTransfer) (bind_id world_id : ℕ) (g : Game)
    → approve_items t bind_id world_id g ≡ ok tt
    → (lookup t.new_vanject.id g.vanjects ≡ none)
      × ((old : Vanject) × (lookup t.old_id g.vanjects ≡ some old)
          × (get_world old.id ≡ world_id)
          × (get_world t.new_vanject.id ≡ world_id)
          × ((t.kind ≡ drop_item → old.player_bind_id ≡ bind_id)))
unfolding approve_items
approve_items-Accepts t bind_id world_id g h =
    elim (Option-cases (lookup t.new_vanject.id g.vanjects)) [
      | inr (v, e) ↦ absurd (ground (arith, contains_key-lookup t.new_vanject.id g.vanjects))
      | inl e ↦ elim (Option-cases (lookup t.old_id g.vanjects)) [
        | inl e' ↦ absurd (ground (arith))
        | inr (old, e') ↦ (e, (old, e', ground arith, ground arith, λ k. ground arith))
      ]
    ]

-- The player behind an approval.
approve-player :
    (client_id : ℕ) (t : ItemTransfer) (g : Game) (bind_id : ℕ)
    → approve client_id t g ≡ ok bind_id
    → (player : Player) × (world : World) × (get_player client_id g.players ≡ some player)
      × (player.bind ≡ some bind_id)
      × (player.world ≡ some world)
      × (approve_items t bind_id world.id g ≡ ok tt)
unfolding approve
approve-player client_id t g bind_id h = elim (Option-cases (get_player client_id g.players)) [
  | inl e ↦ absurd (ground arith)
  | inr (p, e) ↦ elim (Option-cases p.bind) [
    | inl e' ↦ absurd (ground arith)
    | inr (b, e') ↦ elim (Option-cases p.world) [
      | inl e2 ↦ absurd (ground arith)
      | inr (w, e2) ↦ (p, w, e, ground arith, e2, ground arith)
    ]
  ]
]

approve-Accepts :
    (client_id : ℕ) (t : ItemTransfer) (g : Game) (bind_id : ℕ)
    → approve client_id t g ≡ ok bind_id
    → Accepts client_id t g bind_id
approve-Accepts client_id t g bind_id h =
    let (player, world, found, bound, placed, items) = approve-player client_id t g bind_id h in
    let (fresh, (old, present, old_world, new_world, owner)) =
      approve_items-Accepts t bind_id world.id g items in
    record {
      player = player;
      world = world;
      old = old;
      found = found;
      bound = bound;
      placed = placed;
      fresh = fresh;
      present = present;
      old_world = old_world;
      new_world = new_world;
      owner = owner;
    }

Accepts-approve :
    (client_id : ℕ) (t : ItemTransfer) (g : Game) (bind_id : ℕ)
    → Accepts client_id t g bind_id
    → approve client_id t g ≡ ok bind_id
unfolding approve approve_items
Accepts-approve client_id t g bind_id a =
    rw
      (
        a.found,
        a.bound,
        a.placed,
        contains_key-lookup t.new_vanject.id g.vanjects,
        a.fresh,
        a.present,
      )
      (ground (arith, a.old_world, a.new_world, a.owner))

exchange_ok :
    (t : ItemTransfer) (bind_id : ℕ) (g : Game) (r : ℕ × Packet)
    → (exchange t bind_id g).0 ≡ ok r
    → (exchange t bind_id g).1 ≡ transferred g t bind_id
unfolding exchange
exchange_ok t bind_id g r h = ground arith

-- When the conditions of a transfer hold (a bound player in a world, the old item there and the
-- new one not, both in the player's world, and a drop only by the owner) and the packet of the new
-- item fits, the transfer succeeds: it returns the world and the packet, and the game has the new
-- item in place of the old one.
pub Accepts-transferred :
    (client_id : ℕ) (t : ItemTransfer) (g : Game) (bind_id : ℕ) (p : Packet)
    → Accepts client_id t g bind_id
    → item_state_packet {E = ItemTransferError} t.old_id (owned_by bind_id t.new_vanject) ≡ ok p
    → transfer_in_game client_id t g ≡ (ok (get_world t.new_vanject.id, p), transferred g t bind_id)
unfolding transfer_in_game exchange
Accepts-transferred client_id t g bind_id p a fits =
    rw (Accepts-approve client_id t g bind_id a, fits) refl

pub transferred-Accepts :
    (client_id : ℕ) (t : ItemTransfer) (g : Game) (r : ℕ × Packet)
    → (transfer_in_game client_id t g).0 ≡ ok r
    → (bind_id : ℕ) × Accepts client_id t g bind_id
      × ((transfer_in_game client_id t g).1 ≡ transferred g t bind_id)
unfolding transfer_in_game
transferred-Accepts client_id t g r h = elim (Result-cases (approve client_id t g)) [
  | inl (b, e) ↦ (b, approve-Accepts client_id t g b e, rw e (exchange_ok t b g r (ground arith)))
  | inr (inl (d, e)) ↦ absurd (ground arith)
  | inr (inr e) ↦ absurd (ground arith)
]
