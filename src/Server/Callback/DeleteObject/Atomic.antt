-- ===== src/Server/Callback/DeleteObject/Atomic.antt =====
-- DELETE_OBJECT happens as a whole or not at all (callback/delete_object.rs).
use vangers_srv.Base.{◌≡◌, err, ℕ, false, not, ◌==◌, word_at, List, Bool-cases, inl, inr}
use vangers_srv.Base.Exec.{convert}
use vangers_srv.Base.Atomic.{
  IsAtomic, NeverFails, lift-then, inspect-then, then-never, never-then, convert-IsAtomic,
  NeverFails-IsAtomic,
}
use vangers_srv.Protocol.{Packet}
use vangers_srv.Vanject.Ids.{get_world, is_non_global_vanject}
use vangers_srv.Server.{Server, reliable, in_game}
use vangers_srv.Server.Errors.{OnUpdateError, delete_object_error, player_not_found}
use vangers_srv.Server.Lending.{in_game-IsAtomic}
use vangers_srv.Server.Notices.{notify_world-NeverFails, notify-NeverFails}
use vangers_srv.Server.Callback.DeleteObject.Answer.{decide}
use vangers_srv.Server.Callback.DeleteObject.{tell_deleted, delete_in_game, delete_object}

tell_deleted-NeverFails :
    {E : Type 0} (client_id vanject_id : ℕ) (p : Packet)
    → NeverFails (tell_deleted {E = E} client_id vanject_id p)
unfolding tell_deleted
tell_deleted-NeverFails {E} client_id vanject_id p =
    elim (Bool-cases (is_non_global_vanject vanject_id)) [
      | inl e ↦ rw e (notify_world-NeverFails E reliable client_id (get_world vanject_id) p false)
      | inr e ↦ rw e (notify-NeverFails E reliable client_id p (λ id. not (id == client_id)))
    ]

delete_in_game-IsAtomic :
    (client_id vanject_id : ℕ) (bytes : List ℕ)
    → IsAtomic (delete_in_game client_id vanject_id bytes)
unfolding delete_in_game
delete_in_game-IsAtomic client_id vanject_id bytes =
    inspect-then (decide client_id vanject_id bytes) _ (λ p. NeverFails-IsAtomic _ (λ g e h. cc))

delete_object-IsAtomic :
    (client_id : ℕ) (packet : Packet) → IsAtomic (delete_object client_id packet)
unfolding delete_object
delete_object-IsAtomic client_id packet = lift-then (word_at packet.bytes 0 4) _ (λ id.
    let m = delete_in_game client_id id packet.bytes in
    then-never
      (convert delete_object_error (in_game client_id (err (player_not_found client_id)) m)) _
      (convert-IsAtomic delete_object_error (in_game client_id (err (player_not_found client_id)) m)
        (in_game-IsAtomic client_id (err (player_not_found client_id)) m
          (delete_in_game-IsAtomic client_id id packet.bytes)))
      (λ p.
        never-then (tell_deleted client_id id p) _ (tell_deleted-NeverFails client_id id p)
          (λ v s e h. cc)))

-- When `delete_object` returns an error, whatever the request and the state, the server is as it was: no
-- game, no object and no player changed, and nothing was sent.
pub delete_object_refused :
    (client_id : ℕ) (packet : Packet) (s : Server) (e : OnUpdateError)
    → (delete_object client_id packet s).0 ≡ err e
    → (delete_object client_id packet s).1 ≡ s
delete_object_refused client_id packet = delete_object-IsAtomic client_id packet
