-- ===== src/Server/Callback/DeleteObject/Ownership.antt =====
-- Who may delete an object, and what goes (callback/delete_object.rs).
use vangers_srv.Base.{
  ℕ, ◌≡◌, ◌≢◌, refl, ap, sym, subst, Bool-cases, ==→eq, ◌∙◌, ◌⊎◌, inl, inr, false, ◌&&◌, none, some,
  List, arith, ◌==◌, if◌then◌else◌, lookup, remove, lookup-remove, ok, Result-cases, Option-cases,
}
use vangers_srv.Protocol.{Packet}
use vangers_srv.Vanject.{Vanject, is_item_vanject}
use vangers_srv.Player.{Player}
use vangers_srv.Game.{Game, get_player}
use vangers_srv.Server.Callback.DeleteObject.Answer.{decide, answer, legacy_item_transfer_marker}
use vangers_srv.Server.Callback.DeleteObject.{delete_in_game}

abbrev pub without : Game → ℕ → Game
without g id = record g { vanjects = remove id g.vanjects }

-- The conditions of a deletion, in a game: the object is the player's, if it is there, and the packet
-- is not the deletion half of an old item transfer.
pub record Deletes (client_id vanject_id : ℕ) (bytes : List ℕ) (g : Game) : Type 0 where
  pub player : Player
  pub bind_id : ℕ
  pub found : get_player client_id g.players ≡ some player
  pub bound : player.bind ≡ some bind_id
  pub owned : (v : Vanject) → lookup vanject_id g.vanjects ≡ some v → v.player_bind_id ≡ bind_id
  pub no_marker :
      (v : Vanject)
      → lookup vanject_id g.vanjects ≡ some v
      → (is_item_vanject v && legacy_item_transfer_marker bytes) ≡ false

decide-Deletes :
    (client_id vanject_id : ℕ) (bytes : List ℕ) (g : Game) (p : Packet)
    → decide client_id vanject_id bytes g ≡ ok p
    → Deletes client_id vanject_id bytes g
unfolding decide answer
decide-Deletes client_id vanject_id bytes g p h =
    elim (Option-cases (get_player client_id g.players)) [
      | inl e ↦ absurd (ground arith)
      | inr (player, e) ↦ elim (Option-cases player.bind) [
        | inl e' ↦ absurd (ground arith)
        | inr (b, e') ↦ record {
          player = player;
          bind_id = b;
          found = e;
          bound = e';
          owned = λ v s. ground arith;
          no_marker = λ v s. ground arith;
        }
      ]
    ]

-- Whatever the outcome of a deletion: the player was allowed to, and the object is gone; or the game is as it was.
pub delete_cases :
    (client_id vanject_id : ℕ) (bytes : List ℕ) (g : Game)
    → (Deletes client_id vanject_id bytes g
        × ((delete_in_game client_id vanject_id bytes g).1 ≡ without g vanject_id))
      ⊎ ((delete_in_game client_id vanject_id bytes g).1 ≡ g)
unfolding delete_in_game
delete_cases client_id vanject_id bytes g =
    elim (Result-cases (decide client_id vanject_id bytes g)) [
      | inl (p, e) ↦ inl (decide-Deletes client_id vanject_id bytes g p e, rw e refl)
      | inr (inl (d, e)) ↦ inr (rw e refl)
      | inr (inr e) ↦ inr (rw e refl)
    ]

-- When an object that was stored is not there as it was after a deletion, whatever the outcome, it
-- is the object that the request names and its owner is the player that asked.
pub deletes_own :
    (client_id vanject_id : ℕ) (bytes : List ℕ) (g : Game) (id : ℕ) (v : Vanject)
    → lookup id g.vanjects ≡ some v
    → lookup id (delete_in_game client_id vanject_id bytes g).1.vanjects ≢ some v
    → (id ≡ vanject_id)
      × ((p : Player) × (get_player client_id g.players ≡ some p)
          × (p.bind ≡ some v.player_bind_id))
deletes_own client_id vanject_id bytes g id v stored gone =
    elim (delete_cases client_id vanject_id bytes g) [
      | inr same ↦ absurd (gone (ap (λ g'. lookup id g'.vanjects) same ∙ stored))
      | inl (d, same) ↦
          let after : lookup id (delete_in_game client_id vanject_id bytes g).1.vanjects
              ≡ (if id == vanject_id then none else lookup id g.vanjects) =
            ap (λ g'. lookup id g'.vanjects) same ∙ lookup-remove vanject_id id g.vanjects in
          elim (Bool-cases (id == vanject_id)) [
            | inr e ↦
                absurd
                  (gone (after ∙ (ap (λ b. if b then none else lookup id g.vanjects) e ∙ stored)))
            | inl e ↦
                let eq : id ≡ vanject_id = ==→eq id vanject_id e in
                (
                  eq,
                  (
                    d.player,
                    d.found,
                    d.bound
                        ∙ ap some
                            (sym (d.owned v (subst (λ i. lookup i g.vanjects ≡ some v) eq stored))),
                  ),
                )
          ]
    ]
