-- ===== src/Server/Callback/UpdateObject/Ownership.antt =====
-- Whose objects an update can change (callback/update_object.rs).
use vangers_srv.Base.{
  ℕ, ◌≡◌, ◌≢◌, refl, ap, ◌∙◌, inl, inr, true, some, List, arith, lookup, lookup-modify,
}
use vangers_srv.Vanject.{Vanject}
use vangers_srv.Vanject.Relay.{update_from_slice_inv}
use vangers_srv.Vanject.Ids.{is_non_global_vanject, is_non_static}
use vangers_srv.Player.{Player}
use vangers_srv.Game.{Game, get_player}
use vangers_srv.Server.Callback.UpdateObject.{owned_by, update_in_game}
use vangers_srv.Server.Callback.UpdateObject.Accepted.{update_cases}

-- An update of one object keeps every object of another id, whatever the outcome, also a panic.
pub others_kept :
    (client_id vanject_id : ℕ) (bytes : List ℕ) (g : Game) (id : ℕ)
    → vanject_id ≢ id
    → lookup id (update_in_game client_id vanject_id bytes g).1.vanjects ≡ lookup id g.vanjects
others_kept client_id vanject_id bytes g id other =
    elim (update_cases client_id vanject_id bytes g) [
      | inr same ↦ ap (λ g'. lookup id g'.vanjects) same
      | inl (b, v, v', a, e, same) ↦
          ap (λ g'. lookup id g'.vanjects) same
          ∙ (lookup-modify vanject_id id (λ _. owned_by b v') g.vanjects ∙ ground arith)
    ]

-- An object of a world that is not static and that another player owns.
unfoldable pub IsForeign : ℕ → Vanject → Game → Type 0
IsForeign client_id v g =
    (is_non_global_vanject v.id ≡ true)
    × (is_non_static v.id ≡ true)
    × ((p : Player) → get_player client_id g.players ≡ some p → p.bind ≢ some v.player_bind_id)

-- An update never changes the game when the object is of a world, not static, and stored with a
-- bind id that is not the sender's, whatever the bytes and the outcome.
pub foreign_kept :
    (client_id vanject_id : ℕ) (bytes : List ℕ) (g : Game) (v : Vanject)
    → lookup vanject_id g.vanjects ≡ some v
    → IsForeign client_id v g
    → (update_in_game client_id vanject_id bytes g).1 ≡ g
unfolding IsForeign
foreign_kept client_id vanject_id bytes g v stored (ng, ns, foreign) =
    elim (update_cases client_id vanject_id bytes g) [
      | inr same ↦ same
      | inl (b, w, w', a, e, same) ↦
          absurd (foreign a.player a.found (ground (arith, a.bound, a.stored, a.owner)))
    ]

-- An object that is stored is still stored after an update of it, with the same id and the same
-- radius, whatever the outcome.
pub identity_kept :
    (client_id vanject_id : ℕ) (bytes : List ℕ) (g : Game) (v : Vanject)
    → lookup vanject_id g.vanjects ≡ some v
    → (v' : Vanject) × (lookup vanject_id (update_in_game client_id vanject_id bytes g).1.vanjects
        ≡ some v')
      × (v'.id ≡ v.id)
      × (v'.radius ≡ v.radius)
identity_kept client_id vanject_id bytes g v stored =
    elim (update_cases client_id vanject_id bytes g) [
      | inr same ↦ (v, ap (λ g'. lookup vanject_id g'.vanjects) same ∙ stored, refl, refl)
      | inl (b, w, w', a, e, same) ↦
          let (long, named, kept) = update_from_slice_inv w w' bytes e in
          (
            owned_by b w',
            ap (λ g'. lookup vanject_id g'.vanjects) same
                ∙ (lookup-modify vanject_id vanject_id (λ _. owned_by b w') g.vanjects
                    ∙ ground arith),
            ground (arith, a.stored),
            ground (arith, a.stored),
          )
    ]
