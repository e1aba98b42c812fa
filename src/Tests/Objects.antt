-- ===== src/Tests/Objects.antt =====
-- Objects that are created, updated and deleted (vangers-srv/src/server/callback/*.rs).
use vangers_srv.Base.{
  Bool, ap, arith, ℕ, ◌≡◌, ◌≢◌, ◌⊎◌, inl, inr, refl, true, List, [], ◌∷◌, ◌++◌, to_le, lookup, some,
  none, Option, Result, ok, err, insert, remove, map, if◌then◌else◌, ◌==◌, passes, IsMap,
}
use vangers_srv.Protocol.{Packet, packet_of}
use vangers_srv.Protocol.Actions.{Action}
use vangers_srv.Vanject.Nid
use vangers_srv.Vanject.{Vanject, VanjectError, vanject_bytes, create_from_slice, update_from_slice}
use vangers_srv.Vanject.Ids.{get_world, is_non_global_vanject, is_non_static}
use vangers_srv.Player.{Player}
use vangers_srv.Game.{Game, get_player}
use vangers_srv.Server.{find_game}
use vangers_srv.Server.Errors.{UpdateObjectError, complete}
use vangers_srv.Server.Callback.UpdateObject.{owned_by, state_packet, update_in_game}
use vangers_srv.Server.Callback.UpdateObject.Accepted.{Allows, accepted, rewritten}
use vangers_srv.Server.Callback.UpdateObject.Ownership.{
  others_kept, foreign_kept, identity_kept, IsForeign,
}
use vangers_srv.Server.Callback.DeleteObject.{delete_in_game, delete_object}
use vangers_srv.Server.Callback.DeleteObject.Ownership.{deletes_own}
use vangers_srv.Server.Callback.CreateObject.{create_in_game, create_object, create}
use vangers_srv.Server.Callback.CreateObject.Created.{Creates}
use vangers_srv.Server.Callback.CreateObject.Inserted.{inserted}
use vangers_srv.Tests.Scene.{
  game, server, stuff_id, slot_id, make_id, object, alice, bob, world, request,
}

-- An update of an object: its id, time, position and body.
abbrev update_of : ℕ → List ℕ
update_of id = to_le 4 id ++ (to_le 4 7 ++ (11 ∷ 0 ∷ 21 ∷ 0 ∷ 9 ∷ 9 ∷ []))

abbrev slot : Vanject
slot = object slot_id 1 (1 ∷ [])

abbrev slot_after : Vanject
slot_after = record slot { time = 7; pos = record { x = 11; y = 21 }; body = 9 ∷ 9 ∷ [] }

alice_slot : Allows 11 slot_id game 1 slot
unfolding get_player lookup get_world
alice_slot = record {
  player = alice;
  found = refl;
  bound = refl;
  stored = refl;
  in_world = λ e. (world, refl, refl);
  owner = λ e f. refl;
}

slot_updated : update_from_slice slot (update_of slot_id) ≡ ok slot_after
unfolding update_from_slice vangers_srv.Base.word_at vangers_srv.Vanject.pos_at
    vangers_srv.Vanject.pos_from_slice vangers_srv.Vanject.body_from
    vangers_srv.Vanject.Ids.get_vanject_type vangers_srv.Base.slice_from
slot_updated = refl

abbrev slot_told : Packet
slot_told = packet_of Action.update_object (vanject_bytes slot_after)

slot_packet : state_packet {E = UpdateObjectError} (owned_by 1 slot_after) ≡ ok slot_told
unfolding state_packet vangers_srv.Vanject.Ids.is_item_type vangers_srv.Vanject.Ids.get_vanject_type
    vangers_srv.Protocol.new vanject_bytes
slot_packet = refl

accepted_example : update_in_game 11 slot_id (update_of slot_id) game ≡ (
  ok (slot_told, (is_non_global_vanject slot_id, get_world slot_id)),
  rewritten game slot_id slot_after,
)
accepted_example =
    accepted 11 slot_id (update_of slot_id) game 1 slot slot_after slot_told alice_slot slot_updated
      slot_packet

slot-ne-stuff : slot_id ≢ stuff_id
slot-ne-stuff e = omega arith

others_kept_example :
    lookup stuff_id (update_in_game 11 slot_id (update_of slot_id) game).1.vanjects
    ≡ lookup stuff_id game.vanjects
others_kept_example = others_kept 11 slot_id (update_of slot_id) game stuff_id slot-ne-stuff

slot_stored : lookup slot_id game.vanjects ≡ some slot
unfolding lookup
slot_stored = refl

bob_found : get_player 22 game.players ≡ some bob
unfolding get_player
bob_found = refl

slot-IsForeign : IsForeign 22 slot game
unfolding IsForeign is_non_global_vanject is_non_static
slot-IsForeign = (refl, refl, λ p e b. ground (arith, bob_found))

-- Bob cannot update Alice's slot.
foreign_kept_example : (update_in_game 22 slot_id (update_of slot_id) game).1 ≡ game
foreign_kept_example =
    foreign_kept 22 slot_id (update_of slot_id) game slot slot_stored slot-IsForeign

identity_kept_example :
    (v' : Vanject) × (lookup slot_id (update_in_game 11 slot_id (update_of slot_id) game).1.vanjects
      ≡ some v')
    × (v'.id ≡ slot_id)
    × (v'.radius ≡ 15)
identity_kept_example = identity_kept 11 slot_id (update_of slot_id) game slot slot_stored

-- The deletion of an object: its id and a time.
abbrev delete_of : ℕ → List ℕ
delete_of id = to_le 4 id ++ (7 ∷ 0 ∷ 0 ∷ 0 ∷ [])

slot_gone : lookup slot_id (delete_in_game 11 slot_id (delete_of slot_id) game).1.vanjects ≡ none
unfolding lookup delete_in_game vangers_srv.Server.Callback.DeleteObject.Answer.decide get_player
    vangers_srv.Server.Callback.DeleteObject.Answer.answer vangers_srv.Vanject.Ids.is_item_type
    vangers_srv.Vanject.Ids.get_vanject_type
    vangers_srv.Server.Callback.DeleteObject.Answer.relayed_delete vangers_srv.Base.slice
    vangers_srv.Base.slice_from vangers_srv.Protocol.new remove vangers_srv.Base.retain_keys
slot_gone = refl

slot_gone-ne :
    lookup slot_id (delete_in_game 11 slot_id (delete_of slot_id) game).1.vanjects ≢ some slot
slot_gone-ne h = ground (arith, slot_gone)

deletes_own_example :
    (slot_id ≡ slot_id) × ((p : Player) × (get_player 11 game.players ≡ some p) × (p.bind ≡ some 1))
deletes_own_example =
    deletes_own 11 slot_id (delete_of slot_id) game slot_id slot slot_stored slot_gone-ne

abbrev new_id : ℕ
new_id = make_id 2 1 Nid.slot 8

-- The creation of a slot: id, time, position, radius and body.
abbrev create_of : Packet
create_of =
    request Action.create_object
      (to_le 4 new_id ++ (7 ∷ 0 ∷ 0 ∷ 0 ∷ 11 ∷ 0 ∷ 21 ∷ 0 ∷ 15 ∷ 0 ∷ 5 ∷ []))

abbrev new_slot : Vanject
new_slot = record {
  id = new_id;
  player_bind_id = 0;
  time = 7;
  pos = record { x = 11; y = 21 };
  radius = 15;
  body = 5 ∷ [];
}

new_parsed : create_from_slice create_of.bytes ≡ ok new_slot
unfolding create_from_slice vangers_srv.Base.word_at vangers_srv.Vanject.pos_at
    vangers_srv.Vanject.pos_from_slice vangers_srv.Vanject.body_from
    vangers_srv.Vanject.Ids.get_vanject_type vangers_srv.Base.slice_from
new_parsed = refl

game_found : find_game 22 server.games ≡ some (1, game)
unfolding find_game
game_found = refl

abbrev new_told : Option (Packet × (Bool × ℕ))
new_told = some (packet_of Action.update_object (vanject_bytes (owned_by 2 new_slot)), (true, 1))

new_made : (create_in_game 22 new_slot game).0 ≡ ok (create (owned_by 2 new_slot) new_told)
unfolding create_in_game lookup vangers_srv.Server.Callback.CreateObject.Approval.approve
    vangers_srv.Server.Callback.CreateObject.Approval.approve_item
    vangers_srv.Vanject.Ids.is_item_type vangers_srv.Vanject.Ids.get_vanject_type get_player
    vangers_srv.Server.Callback.CreateObject.announce state_packet vangers_srv.Protocol.new
    vanject_bytes is_non_global_vanject get_world
new_made = refl

inserted_example :
    ((create_object 22 create_of server).0 ≡ ok complete)
    × ((g' : Game) × (find_game 22 (create_object 22 create_of server).1.games ≡ some (1, g'))
        × ((bind_id : ℕ) × Creates 22 new_slot game bind_id
            × (g'.vanjects ≡ insert new_id (owned_by bind_id new_slot) game.vanjects)))
inserted_example =
    inserted 22 create_of server 1 game new_slot (owned_by 2 new_slot) new_told new_parsed
      game_found new_made
