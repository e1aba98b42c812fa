-- ===== src/Server/Callback/UpdateObject/Atomic.antt =====
-- UPDATE_OBJECT happens as a whole or not at all (callback/update_object.rs).
use vangers_srv.Base.{◌≡◌, err, ℕ, Bool, true, false, not, ltb, length, ◌==◌, word_at}
use vangers_srv.Base.Exec.{convert}
use vangers_srv.Base.Atomic.{
  IsAtomic, NeverFails, lift-then, check-then, then-never, never-then, convert-IsAtomic,
}
use vangers_srv.Protocol.{Packet}
use vangers_srv.Server.{Server, Channel, in_game}
use vangers_srv.Server.Errors.{
  OnUpdateError, update_object_error, slice_too_small, player_not_found,
}
use vangers_srv.Server.Lending.{in_game-IsAtomic}
use vangers_srv.Server.Notices.{notify_world-NeverFails, notify-NeverFails}
use vangers_srv.Server.Callback.UpdateObject.{tell, update_in_game, update_object}
use vangers_srv.Server.Callback.UpdateObject.Accepted.{update_in_game-IsAtomic}

pub tell-NeverFails :
    {E : Type 0} (c : Channel) (client_id : ℕ) (told : Packet × (Bool × ℕ))
    → NeverFails (tell {E = E} c client_id told)
unfolding tell
tell-NeverFails {E} c client_id (p, (true, world)) =
    notify_world-NeverFails E c client_id world p false
tell-NeverFails {E} c client_id (p, (false, world)) =
    notify-NeverFails E c client_id p (λ id. not (id == client_id))

update_object-IsAtomic :
    (client_id : ℕ) (packet : Packet) → IsAtomic (update_object client_id packet)
unfolding update_object
update_object-IsAtomic client_id packet =
    check-then (not (ltb (length packet.bytes) 4)) (update_object_error slice_too_small) _ (
      lift-then (word_at packet.bytes 0 4) _ (λ id.
        let inner =
          in_game client_id (err (player_not_found client_id))
            (update_in_game client_id id packet.bytes) in
        then-never (convert update_object_error inner) _
          (convert-IsAtomic update_object_error inner (
            in_game-IsAtomic client_id (err (player_not_found client_id))
              (update_in_game client_id id packet.bytes)
              (update_in_game-IsAtomic client_id id packet.bytes)))
          (λ told.
            never-then (tell _ client_id told) _ (tell-NeverFails _ client_id told)
              (λ v s e h. cc))))

-- When `update_object` returns an error, whatever the request and the state, the server is as it was: no
-- game, no object and no player changed, and nothing was sent.
pub update_object_refused :
    (client_id : ℕ) (packet : Packet) (s : Server) (e : OnUpdateError)
    → (update_object client_id packet s).0 ≡ err e
    → (update_object client_id packet s).1 ≡ s
update_object_refused client_id packet = update_object-IsAtomic client_id packet
