-- ===== src/Tests/Handlers.antt =====
-- The handlers' theorems in a scene (vangers-srv/src/server/callback/*.rs).
use vangers_srv.Base.{ap, arith, ℕ, ◌≡◌, ◌≢◌, refl, ◌∷◌, ◌++◌, to_le, lookup, ok}
use vangers_srv.Protocol.{Packet, packet_of, new, try_i16}
use vangers_srv.Protocol.Actions.{Action}
use vangers_srv.Vanject.{vanject_bytes}
use vangers_srv.Vanject.Ids.{get_world}
use vangers_srv.Game.{get_player}
use vangers_srv.Server.Errors.{ItemTransferError}
use vangers_srv.Server.Callback.Items.{item_state_packet}
use vangers_srv.Server.Callback.TransferPacket.{ItemTransfer, pickup}
use vangers_srv.Server.Callback.ItemTransfer.{transfer_in_game, owned_by}
use vangers_srv.Server.Callback.ItemTransfer.Accepted.{Accepts, Accepts-transferred, transferred}
use vangers_srv.Server.Callback.ItemTransfer.Races.{one_winner, succeeded-Exchanged, Exchanged}
use vangers_srv.Tests.Scene.{game, stuff_id, device_id, object, item_body, bob, world}

-- The pickup of the stuff.
abbrev picked : ItemTransfer
picked = record {
  kind = pickup;
  old_id = stuff_id;
  delete_body = 1;
  new_vanject = object device_id 0 (item_body stuff_id);
}

abbrev picked_by : ℕ → Packet
picked_by bind_id =
    packet_of Action.item_state
      (1 ∷ (to_le 4 stuff_id ++ vanject_bytes (owned_by bind_id picked.new_vanject)))

picked_bob : Accepts 22 picked game 2
unfolding get_player lookup get_world
picked_bob = record {
  player = bob;
  world = world;
  old = object stuff_id 1 (item_body device_id);
  found = refl;
  bound = refl;
  placed = refl;
  fresh = refl;
  present = refl;
  old_world = refl;
  new_world = refl;
  owner = λ e. absurd (omega arith);
}

picked_packet :
    (b : ℕ)
    → item_state_packet {E = ItemTransferError} stuff_id (owned_by b picked.new_vanject)
      ≡ ok (picked_by b)
unfolding item_state_packet new try_i16 vanject_bytes
picked_packet b = refl

Accepts-transferred_example :
    transfer_in_game 22 picked game
    ≡ (ok (get_world device_id, picked_by 2), transferred game picked 2)
Accepts-transferred_example =
    Accepts-transferred 22 picked game 2 (picked_by 2) picked_bob (picked_packet 2)

abbrev picked_told : ℕ → ℕ × Packet
picked_told bind_id = (get_world device_id, picked_by bind_id)

bob_first : (transfer_in_game 22 picked game).0 ≡ ok (picked_told 2)
bob_first = ap (λ r. r.0) Accepts-transferred_example

succeeded-Exchanged_example :
    (bind_id : ℕ) × Accepts 22 picked game bind_id
    × Exchanged picked bind_id game.vanjects (transfer_in_game 22 picked game).1.vanjects
succeeded-Exchanged_example = succeeded-Exchanged 22 picked game (picked_told 2) bob_first

-- Both want the stuff, and Bob is first.
one_winner_example :
    (transfer_in_game 11 picked (transfer_in_game 22 picked game).1).0 ≢ ok (picked_told 1)
one_winner_example =
    one_winner 22 11 picked picked game (picked_told 2) (picked_told 1) refl bob_first
