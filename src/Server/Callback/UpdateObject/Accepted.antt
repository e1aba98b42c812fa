-- ===== src/Server/Callback/UpdateObject/Accepted.antt =====
-- Which updates a game accepts, and what they change (callback/update_object.rs).
use vangers_srv.Base.{
  ℕ, ◌≡◌, refl, ◌⊎◌, inl, inr, true, Option, none, some, List, arith, lookup, modify, ok,
  Option-cases, Result-cases, map_err,
}
use vangers_srv.Base.Atomic.{NeverFails, IsAtomic, lift-then, inspect-then, NeverFails-IsAtomic}
use vangers_srv.Protocol.{Packet}
use vangers_srv.Vanject.{Vanject, update_from_slice}
use vangers_srv.Vanject.Ids.{get_world, is_non_global_vanject, is_non_static}
use vangers_srv.Player.{Player, World}
use vangers_srv.Game.{Game, get_player}
use vangers_srv.Server.Errors.{UpdateObjectError, slice_to_vanject_parse}
use vangers_srv.Server.Callback.Packets.{state_packet-ne-err}
use vangers_srv.Server.Callback.UpdateObject.{owned_by, state_packet, write_object, update_in_game}
use vangers_srv.Server.Callback.UpdateObject.Approval.{approve, approve_world}

-- The conditions of an update, in a game.
pub record Allows (client_id vanject_id : ℕ) (g : Game) (bind_id : ℕ) (v : Vanject) : Type 0 where
  pub player : Player
  pub found : get_player client_id g.players ≡ some player
  pub bound : player.bind ≡ some bind_id
  pub stored : lookup vanject_id g.vanjects ≡ some v
  pub in_world :
      (is_non_global_vanject v.id ≡ true
        → (world : World) × (player.world ≡ some world) × (world.id ≡ get_world v.id))
  pub owner :
      (is_non_global_vanject v.id ≡ true → is_non_static v.id ≡ true → v.player_bind_id ≡ bind_id)

approve_world-in :
    (client_id vanject_id : ℕ) (o : Option World) (v : Vanject)
    → approve_world client_id vanject_id o v ≡ ok tt
    → is_non_global_vanject v.id ≡ true
    → (world : World) × (o ≡ some world) × (world.id ≡ get_world v.id)
unfolding approve_world
approve_world-in client_id vanject_id none v h e = absurd (ground arith)
approve_world-in client_id vanject_id (some w) v h e = (w, refl, ground arith)

approve-Allows :
    (client_id vanject_id : ℕ) (g : Game) (bind_id : ℕ) (v : Vanject)
    → approve client_id vanject_id g ≡ ok (bind_id, v)
    → Allows client_id vanject_id g bind_id v
unfolding approve
approve-Allows client_id vanject_id g bind_id v h =
    elim (Option-cases (get_player client_id g.players)) [
      | inl e ↦ absurd (ground arith)
      | inr (p, e) ↦ record {
        player = p;
        found = e;
        bound = ground arith;
        stored = ground arith;
        in_world = approve_world-in client_id vanject_id p.world v (ground arith);
        owner = ground arith;
      }
    ]

Allows-approve :
    (client_id vanject_id : ℕ) (g : Game) (bind_id : ℕ) (v : Vanject)
    → Allows client_id vanject_id g bind_id v
    → approve client_id vanject_id g ≡ ok (bind_id, v)
unfolding approve approve_world
Allows-approve client_id vanject_id g bind_id v a =
    rw (a.found, a.bound, a.stored) (ground (arith, a.in_world, a.owner))

-- The game with an object in the place of the one of that id.
abbrev pub rewritten : Game → ℕ → Vanject → Game
rewritten g id v = record g { vanjects = modify id (λ _. v) g.vanjects }

write_object-NeverFails :
    {E : Type 0} (id : ℕ) (v : Vanject) → NeverFails (write_object {E = E} id v)
unfolding write_object
write_object-NeverFails id v g e h = ground (arith, state_packet-ne-err v e)

write_object-rewritten :
    (E : Type 0) (id : ℕ) (v : Vanject) (g : Game)
    → (write_object {E = E} id v g).1 ≡ rewritten g id v
unfolding write_object
write_object-rewritten E id v g = ground arith

-- What an update did to the game, whatever its outcome: the player was allowed to, and the object was
-- written; or the game is as it was.
pub update_cases :
    (client_id vanject_id : ℕ) (bytes : List ℕ) (g : Game)
    → ((bind_id : ℕ) × (v : Vanject) × (v' : Vanject) × Allows client_id vanject_id g bind_id v
        × (update_from_slice v bytes ≡ ok v')
        × ((update_in_game client_id vanject_id bytes g).1
            ≡ rewritten g vanject_id (owned_by bind_id v')))
      ⊎ ((update_in_game client_id vanject_id bytes g).1 ≡ g)
unfolding update_in_game
update_cases client_id vanject_id bytes g = elim (Result-cases (approve client_id vanject_id g)) [
  | inr (inl (d, e)) ↦ inr (rw e refl)
  | inr (inr e) ↦ inr (rw e refl)
  | inl ((b, v), e) ↦ elim (Result-cases (update_from_slice v bytes)) [
    | inr (inl (d, e')) ↦ inr (rw (e, e') refl)
    | inr (inr e') ↦ inr (rw (e, e') refl)
    | inl (v', e') ↦ inl (
      b,
      v,
      v',
      approve-Allows client_id vanject_id g b v e,
      e',
      rw (e, e') (write_object-rewritten UpdateObjectError vanject_id (owned_by b v') g),
    )
  ]
]

-- When the conditions of an update hold (a bound player, the object stored, a non-global object in
-- the player's world, and a non-static one of those owned by the player), the bytes are an update
-- of the object and its packet fits, the update succeeds: it returns the packet and its
-- destination, and the object is replaced by the updated one, owned by the player.
pub accepted :
    (client_id vanject_id : ℕ) (bytes : List ℕ) (g : Game) (bind_id : ℕ) (v v' : Vanject)
    (p : Packet)
    → Allows client_id vanject_id g bind_id v
    → update_from_slice v bytes ≡ ok v'
    → state_packet {E = UpdateObjectError} (owned_by bind_id v') ≡ ok p
    → update_in_game client_id vanject_id bytes g ≡ (
      ok (p, (is_non_global_vanject v'.id, get_world v'.id)),
      rewritten g vanject_id (owned_by bind_id v'),
    )
unfolding update_in_game write_object
accepted client_id vanject_id bytes g bind_id v v' p a e fits =
    rw (Allows-approve client_id vanject_id g bind_id v a, e, fits) refl

pub update_in_game-IsAtomic :
    (client_id vanject_id : ℕ) (bytes : List ℕ)
    → IsAtomic (update_in_game client_id vanject_id bytes)
unfolding update_in_game
update_in_game-IsAtomic client_id vanject_id bytes =
    inspect-then (approve client_id vanject_id) _ (λ r.
      lift-then (map_err slice_to_vanject_parse (update_from_slice r.1 bytes)) _ (λ v'.
        NeverFails-IsAtomic (write_object vanject_id (owned_by r.0 v'))
          (write_object-NeverFails vanject_id (owned_by r.0 v'))))
