-- ===== src/Server/Callback/CreateObject/Created.antt =====
-- Which objects a game creates, and what it changes (callback/create_object.rs).
use vangers_srv.Base.{
  ℕ, ◌≡◌, refl, inl, inr, Bool, true, Option, none, some, arith, lookup, ok, Result-cases,
  Option-cases,
}
use vangers_srv.Protocol.{Packet}
use vangers_srv.Vanject.{Vanject, is_item_vanject}
use vangers_srv.Player.{Player}
use vangers_srv.Game.{Game, get_player}
use vangers_srv.Server.Errors.{CreateObjectError}
use vangers_srv.Server.Callback.Items.{item_has_paired_vanject}
use vangers_srv.Server.Callback.UpdateObject.{owned_by}
use vangers_srv.Server.Callback.CreateObject.Approval.{approve, approve_item}
use vangers_srv.Server.Callback.CreateObject.{create, announce, move_vanger, create_in_game}

-- The creation of an object whose id is stored already changes nothing in the game, whatever the
-- outcome.
pub duplicate :
    (client_id : ℕ) (v existing : Vanject) (g : Game)
    → lookup v.id g.vanjects ≡ some existing
    → (create_in_game client_id v g).1 ≡ g
unfolding create_in_game
duplicate client_id v existing g h = ground arith

-- The conditions of a creation, in a game.
pub record Creates (client_id : ℕ) (v : Vanject) (g : Game) (bind_id : ℕ) : Type 0 where
  pub player : Player
  pub found : get_player client_id g.players ≡ some player
  pub bound : player.bind ≡ some bind_id
  pub fresh : lookup v.id g.vanjects ≡ none
  pub unpaired : (is_item_vanject v ≡ true → item_has_paired_vanject v g.vanjects ≡ none)

approve_item-unpaired :
    (v : Vanject) (g : Game)
    → approve_item v g ≡ ok tt
    → is_item_vanject v ≡ true
    → item_has_paired_vanject v g.vanjects ≡ none
unfolding approve_item
approve_item-unpaired v g h item = ground arith

pub approve-player :
    (client_id : ℕ) (v : Vanject) (g : Game) (bind_id : ℕ) (player : Player)
    → approve client_id v g ≡ ok (bind_id, player)
    → (approve_item v g ≡ ok tt)
      × (get_player client_id g.players ≡ some player)
      × (player.bind ≡ some bind_id)
unfolding approve
approve-player client_id v g bind_id player h = ground arith

announce_created :
    {E : Type 0} (client_id : ℕ) (player : Player) (v w : Vanject) (g : Game)
    (told : Option (Packet × (Bool × ℕ)))
    → (announce {E = E} client_id player v g).0 ≡ ok (create w told)
    → w ≡ v
unfolding announce move_vanger
announce_created client_id player v w g told h = ground arith

announce-vanjects :
    (E : Type 0) (client_id : ℕ) (player : Player) (v : Vanject) (g : Game)
    → (announce {E = E} client_id player v g).1.vanjects ≡ g.vanjects
unfolding announce move_vanger
announce-vanjects E client_id player v g = ground arith

-- Until the others are told, no object changes.
pub create_in_game-vanjects :
    (client_id : ℕ) (v : Vanject) (g : Game)
    → (create_in_game client_id v g).1.vanjects ≡ g.vanjects
unfolding create_in_game
create_in_game-vanjects client_id v g = elim (Option-cases (lookup v.id g.vanjects)) [
  | inr (w, e) ↦ ground arith
  | inl e ↦ elim (Result-cases (approve client_id v g)) [
    | inl ((b, p), e') ↦
        rw (e, e') (announce-vanjects CreateObjectError client_id p (owned_by b v) g)
    | inr (inl (d, e')) ↦ rw (e, e') refl
    | inr (inr e') ↦ rw (e, e') refl
  ]
]

-- A new object.
pub created :
    (client_id : ℕ) (v w : Vanject) (g : Game) (told : Option (Packet × (Bool × ℕ)))
    → (create_in_game client_id v g).0 ≡ ok (create w told)
    → (bind_id : ℕ) × Creates client_id v g bind_id × (w ≡ owned_by bind_id v)
unfolding create_in_game
created client_id v w g told h = elim (Option-cases (lookup v.id g.vanjects)) [
  | inr (x, e) ↦ absurd (ground arith)
  | inl e ↦ elim (Result-cases (approve client_id v g)) [
    | inr (inl (d, e')) ↦ absurd (ground arith)
    | inr (inr e') ↦ absurd (ground arith)
    | inl ((b, p), e') ↦
        let (item, found, bound) = approve-player client_id v g b p e' in
        (
          b,
          record {
            player = p;
            found = found;
            bound = bound;
            fresh = e;
            unpaired = approve_item-unpaired v g item;
          },
          announce_created {E = CreateObjectError} client_id p (owned_by b v) w g told
              (ground arith),
        )
  ]
]
