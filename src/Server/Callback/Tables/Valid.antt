-- ===== src/Server/Callback/Tables/Valid.antt =====
-- What the handlers do in a game keeps what holds of it (callback/*.rs): they write no player's bind id.
use vangers_srv.Base.{
  ℕ, ◌≡◌, refl, sym, ◌∙◌, subst, Bool, List, insert, Result-cases, Option-cases, Bool-cases, inl,
  inr, arith, lookup, ok, ◌==◌, some, none,
}
use vangers_srv.Base.Keeps.{Keeps}
use vangers_srv.Protocol.{new}
use vangers_srv.Protocol.Actions.{Action}
use vangers_srv.Vanject.{Vanject, get_type, vanject_bytes}
use vangers_srv.Vanject.Nid
use vangers_srv.Player.{Player, set_body}
use vangers_srv.Game.{Game, get_player, set_player, bind_ids}
use vangers_srv.Game.Players.{get_player_client, get_player-set_player}
use vangers_srv.Game.Valid.{IsGame, SameIds, SameIds-IsGame, bind_ids-set_player}
use vangers_srv.Server.Errors.{CreateObjectError}
use vangers_srv.Server.Callback.TransferPacket.{ItemTransfer}
use vangers_srv.Server.Callback.ItemTransfer.{exchange, transfer_in_game}
use vangers_srv.Server.Callback.ItemTransfer.Approval.{approve}
use vangers_srv.Server.Callback.UpdateObject.{update_in_game, owned_by, state_packet}
use vangers_srv.Server.Callback.UpdateObject.Accepted.{update_cases}
use vangers_srv.Server.Callback.DeleteObject.{delete_in_game}
use vangers_srv.Server.Callback.DeleteObject.Ownership.{delete_cases}
use vangers_srv.Server.Callback.CreateObject.{create_in_game, announce, move_vanger}
use vangers_srv.Server.Callback.CreateObject.Approval as Creating
use vangers_srv.Server.Callback.CreateObject.Approval.{replay_packets}
use vangers_srv.Server.Callback.CreateObject.Created.{approve-player}
use vangers_srv.Server.Callback.LeaveWorld.{leave_in_game}
use vangers_srv.Server.Callback.LeaveWorld.Leaver.{leaver}
use vangers_srv.Server.Callback.LeaveWorld.Cleared.{leave_cleared}
use vangers_srv.Server.Callback.Tables.Games.{
  transfer_in_game-IsStored, update_in_game-IsStored, delete_in_game-IsStored,
  create_in_game-IsStored, leave_in_game-IsStored, insert-IsStored,
}

abbrev same : (g : Game) → SameIds g g
same g = (refl, refl)

exchange-SameIds : (t : ItemTransfer) (bind_id : ℕ) (g : Game) → SameIds g (exchange t bind_id g).1
unfolding exchange
exchange-SameIds t bind_id g = ground arith

transfer_in_game-SameIds :
    (client_id : ℕ) (t : ItemTransfer) (g : Game) → SameIds g (transfer_in_game client_id t g).1
unfolding transfer_in_game
transfer_in_game-SameIds client_id t g = elim (Result-cases (approve client_id t g)) [
  | inl (b, e) ↦ rw e (exchange-SameIds t b g)
  | inr (inl (d, e)) ↦ rw e (same g)
  | inr (inr e) ↦ rw e (same g)
]

update_in_game-SameIds :
    (client_id vanject_id : ℕ) (bytes : List ℕ) (g : Game)
    → SameIds g (update_in_game client_id vanject_id bytes g).1
update_in_game-SameIds client_id vanject_id bytes g =
    elim (update_cases client_id vanject_id bytes g) [
      | inl (b, v, v', a, e, after) ↦ subst (SameIds g) (sym after) (refl, refl)
      | inr after ↦ subst (SameIds g) (sym after) (same g)
    ]

delete_in_game-SameIds :
    (client_id vanject_id : ℕ) (bytes : List ℕ) (g : Game)
    → SameIds g (delete_in_game client_id vanject_id bytes g).1
delete_in_game-SameIds client_id vanject_id bytes g =
    elim (delete_cases client_id vanject_id bytes g) [
      | inl (d, after) ↦ subst (SameIds g) (sym after) (refl, refl)
      | inr after ↦ subst (SameIds g) (sym after) (same g)
    ]

-- The body that a player is dressed in leaves its bind id alone.
pub set_body-bind :
    {E : Type 0} (p q : Player) (s : List ℕ) (b : Bool)
    → set_body {E = E} p s ≡ ok (q, b)
    → q.bind ≡ p.bind
unfolding set_body
set_body-bind p q s b h = ground arith

module _ (E : Type 0) (client_id : ℕ) (player : Player) (v : Vanject) (g : Game)
    (found : get_player client_id g.players ≡ some player) where
  moved_ids :
      bind_ids (set_player client_id (record player { pos = v.pos }) g.players) ≡ bind_ids g.players
  moved_ids =
      bind_ids-set_player client_id (record player { pos = v.pos }) g.players player found refl

  dressed_ids :
      (q : Player)
      → q.bind ≡ player.bind
      → bind_ids
          (set_player client_id q (set_player client_id (record player { pos = v.pos }) g.players))
        ≡ bind_ids g.players
  dressed_ids q e =
      bind_ids-set_player client_id q _ (record player { pos = v.pos })
        (get_player-set_player client_id (record player { pos = v.pos }) g.players player
          (get_player_client client_id g.players player found) found)
        e
      ∙ moved_ids

  move_vanger-SameIds : SameIds g (move_vanger {E = E} client_id player v g).1
  unfolding move_vanger
  move_vanger-SameIds =
      elim (Result-cases (set_body {E = E} (record player { pos = v.pos }) v.body)) [
        | inl ((q, b), e) ↦ elim (Bool-cases b) [
          | inl t ↦
              rw (e, t)
                (elim (Result-cases (new {E = E} Action.update_object (vanject_bytes v))) [
                  | inl (p, e') ↦ rw e' (
                    refl,
                    dressed_ids q (set_body-bind (record player { pos = v.pos }) q v.body b e),
                  )
                  | inr (inl (d, e')) ↦ rw e' (
                    refl,
                    dressed_ids q (set_body-bind (record player { pos = v.pos }) q v.body b e),
                  )
                  | inr (inr e') ↦ rw e' (
                    refl,
                    dressed_ids q (set_body-bind (record player { pos = v.pos }) q v.body b e),
                  )
                ])
          | inr t ↦
              rw (e, t)
                (refl, dressed_ids q (set_body-bind (record player { pos = v.pos }) q v.body b e))
        ]
        | inr (inl (d, e)) ↦ rw e (refl, moved_ids)
        | inr (inr e) ↦ rw e (refl, moved_ids)
      ]

  announce-SameIds : SameIds g (announce {E = E} client_id player v g).1
  unfolding announce
  announce-SameIds = elim (Bool-cases (get_type v == Nid.vanger)) [
    | inl e ↦ rw e move_vanger-SameIds
    | inr e ↦ rw e (elim (Result-cases (state_packet {E = E} v)) [
      | inl (p, e') ↦ rw e' (same g)
      | inr (inl (d, e')) ↦ rw e' (same g)
      | inr (inr e') ↦ rw e' (same g)
    ])
  ]

create_in_game-SameIds :
    (client_id : ℕ) (v : Vanject) (g : Game) → SameIds g (create_in_game client_id v g).1
unfolding create_in_game
create_in_game-SameIds client_id v g = elim (Option-cases (lookup v.id g.vanjects)) [
  | inr (w, e) ↦ rw e (elim (Result-cases (replay_packets {E = CreateObjectError} w)) [
    | inl (p, e') ↦ rw e' (same g)
    | inr (inl (d, e')) ↦ rw e' (same g)
    | inr (inr e') ↦ rw e' (same g)
  ])
  | inl e ↦ elim (Result-cases (Creating.approve client_id v g)) [
    | inl ((b, p), e') ↦
        rw (e, e')
          (announce-SameIds CreateObjectError client_id p (owned_by b v) g
            (approve-player client_id v g b p e').1)
    | inr (inl (d, e')) ↦ rw (e, e') (same g)
    | inr (inr e') ↦ rw (e, e') (same g)
  ]
]

leaver-found :
    (client_id : ℕ) (g : Game) (bind_id : ℕ) (player : Player)
    → leaver client_id g ≡ ok (bind_id, player)
    → get_player client_id g.players ≡ some player
unfolding leaver
leaver-found client_id g bind_id player h = ground arith

leave_in_game-SameIds : (client_id : ℕ) (g : Game) → SameIds g (leave_in_game client_id g).1
unfolding leave_in_game
leave_in_game-SameIds client_id g = elim (Result-cases (leaver client_id g)) [
  | inl ((b, p), e) ↦
      subst (λ r. SameIds g r.1) (sym (leave_cleared client_id g b p e))
        (
          refl,
          bind_ids-set_player client_id (record p { world = none }) g.players p
              (leaver-found client_id g b p e) refl,
        )
  | inr (inl (d, e)) ↦ rw e (same g)
  | inr (inr e) ↦ rw e (same g)
]

module _ (k client_id : ℕ) where
  pub transfer_in_game-IsGame : (t : ItemTransfer) → Keeps (IsGame k) (transfer_in_game client_id t)
  transfer_in_game-IsGame t g h =
      SameIds-IsGame k g _ (transfer_in_game-SameIds client_id t g)
        (transfer_in_game-IsStored client_id t g h.stored) h

  pub update_in_game-IsGame :
      (vanject_id : ℕ) (bytes : List ℕ)
      → Keeps (IsGame k) (update_in_game client_id vanject_id bytes)
  update_in_game-IsGame vanject_id bytes g h =
      SameIds-IsGame k g _ (update_in_game-SameIds client_id vanject_id bytes g)
        (update_in_game-IsStored client_id vanject_id bytes g h.stored) h

  pub delete_in_game-IsGame :
      (vanject_id : ℕ) (bytes : List ℕ)
      → Keeps (IsGame k) (delete_in_game client_id vanject_id bytes)
  delete_in_game-IsGame vanject_id bytes g h =
      SameIds-IsGame k g _ (delete_in_game-SameIds client_id vanject_id bytes g)
        (delete_in_game-IsStored client_id vanject_id bytes g h.stored) h

  pub create_in_game-IsGame : (v : Vanject) → Keeps (IsGame k) (create_in_game client_id v)
  create_in_game-IsGame v g h =
      SameIds-IsGame k g _ (create_in_game-SameIds client_id v g)
        (create_in_game-IsStored client_id v g h.stored) h

  pub leave_in_game-IsGame : Keeps (IsGame k) (leave_in_game client_id)
  leave_in_game-IsGame g h =
      SameIds-IsGame k g _ (leave_in_game-SameIds client_id g)
        (leave_in_game-IsStored client_id g h.stored) h

pub insert-IsGame :
    (k : ℕ) (v : Vanject) (g : Game)
    → IsGame k g
    → IsGame k (record g { vanjects = insert v.id v g.vanjects })
insert-IsGame k v g h = SameIds-IsGame k g _ (refl, refl) (insert-IsStored v g h.stored) h
