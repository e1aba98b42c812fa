-- ===== src/Server/Callback/CreateObject/Atomic.antt =====
-- CREATE_OBJECT happens as a whole or not at all (callback/create_object.rs).
use vangers_srv.Base.{
  ◌≡◌, ℕ, ◌≢◌, refl, inl, inr, Bool, ◌==◌, Option, none, some, List, arith, lookup, err, panic,
  map_err, Result-cases, Option-cases,
}
use vangers_srv.Base.Exec.{convert}
use vangers_srv.Base.Atomic.{
  IsAtomic, NeverFails, lift-then, then-never, never-then, convert-IsAtomic, for_each-NeverFails,
}
use vangers_srv.Protocol.{Packet}
use vangers_srv.Protocol.Actions.{Action}
use vangers_srv.Vanject.{Vanject, create_from_slice, vanject_bytes}
use vangers_srv.Player.{Player, set_body}
use vangers_srv.Player.Body.{body_from_slice, body_from_slice_cases}
use vangers_srv.Server.{Server, reliable, in_game, notify_player}
use vangers_srv.Server.Errors.{
  OnUpdateError, CreateObjectError, slice_to_vanject_parse, create_object_error, player_not_found,
}
use vangers_srv.Server.Lending.{in_game-IsAtomic, in_game-NeverFails}
use vangers_srv.Server.Notices.{notify-NeverFails}
use vangers_srv.Server.Callback.Packets.{new-ne-err, state_packet-ne-err}
use vangers_srv.Server.Callback.UpdateObject.{owned_by}
use vangers_srv.Server.Callback.UpdateObject.Atomic.{tell-NeverFails}
use vangers_srv.Server.Callback.CreateObject.Approval.{approve}
use vangers_srv.Server.Callback.CreateObject.{
  Creation, replay, create, announce, move_vanger, create_in_game, tell_created, insert_object,
  finish, create_object,
}

body_from_slice-ne-err : {E : Type 0} (s : List ℕ) (e : E) → body_from_slice s ≢ err e
body_from_slice-ne-err {E} s e h = ground (arith, body_from_slice_cases {E = E} s)

announce-NeverFails :
    {E : Type 0} (client_id : ℕ) (player : Player) (v : Vanject)
    → NeverFails (announce {E = E} client_id player v)
unfolding announce move_vanger set_body
announce-NeverFails client_id player v g e h = ground (
  arith,
  state_packet-ne-err v e,
  new-ne-err Action.update_object (vanject_bytes v) e,
  body_from_slice-ne-err v.body e,
)

create_in_game-IsAtomic : (client_id : ℕ) (v : Vanject) → IsAtomic (create_in_game client_id v)
unfolding create_in_game
create_in_game-IsAtomic client_id v g e h = elim (Option-cases (lookup v.id g.vanjects)) [
  | inr (w, found) ↦ ground arith
  | inl found ↦ elim (Result-cases (approve client_id v g)) [
    | inl ((b, p), ok') ↦
        absurd (
          announce-NeverFails {E = CreateObjectError} client_id p (owned_by b v) g e (ground arith))
    | inr (inl (d, bad)) ↦ rw (found, bad) refl
    | inr (inr bad) ↦ rw (found, bad) refl
  ]
]

tell_created-NeverFails :
    {E : Type 0} (client_id : ℕ) (told : Option (Packet × (Bool × ℕ)))
    → NeverFails (tell_created {E = E} client_id told)
unfolding tell_created
tell_created-NeverFails client_id none = λ s e h. cc
tell_created-NeverFails client_id (some told) = tell-NeverFails reliable client_id told

insert_object-NeverFails :
    {E : Type 0} (client_id : ℕ) (v : Vanject) → NeverFails (insert_object {E = E} client_id v)
unfolding insert_object
insert_object-NeverFails client_id v =
    in_game-NeverFails client_id panic _ (λ e h. cc) (λ g e h. cc)

finish-NeverFails :
    {E : Type 0} (client_id : ℕ) (c : Creation) → NeverFails (finish {E = E} client_id c)
unfolding finish
finish-NeverFails {E} client_id (replay packets) =
    for_each-NeverFails (λ p. notify_player client_id p) packets
      (λ p. notify-NeverFails E reliable client_id p (λ id. id == client_id))
finish-NeverFails {E} client_id (create v told) =
    never-then (tell_created client_id told) (λ u. insert_object client_id v)
      (tell_created-NeverFails client_id told) (λ u. insert_object-NeverFails client_id v)

create_object-IsAtomic :
    (client_id : ℕ) (packet : Packet) → IsAtomic (create_object client_id packet)
unfolding create_object
create_object-IsAtomic client_id packet =
    lift-then
      (map_err (λ e. create_object_error (slice_to_vanject_parse e))
        (create_from_slice packet.bytes))
      _
      (λ v.
        let m = create_in_game client_id v in
        let missing = err (player_not_found client_id) in
        then-never (convert create_object_error (in_game client_id missing m)) _
          (convert-IsAtomic create_object_error (in_game client_id missing m)
            (in_game-IsAtomic client_id missing m (create_in_game-IsAtomic client_id v)))
          (λ c. never-then (finish client_id c) _ (finish-NeverFails client_id c) (λ u s e h. cc)))

-- When `create_object` returns an error, whatever the request and the state, the server is as it was: no
-- game, no object and no player changed, and nothing was sent.
pub create_object_refused :
    (client_id : ℕ) (packet : Packet) (s : Server) (e : OnUpdateError)
    → (create_object client_id packet s).0 ≡ err e
    → (create_object client_id packet s).1 ≡ s
create_object_refused client_id packet = create_object-IsAtomic client_id packet
