-- ===== src/Server/Callback/DeleteObject.antt =====
-- DELETE_OBJECT, vangers-srv/src/server/callback/delete_object.rs. Log records are left out.
pub mod Answer
pub mod Ownership
pub mod Atomic
use vangers_srv.Base.{err, ℕ, false, List, if◌then◌else◌, word_at, remove}
use vangers_srv.Base.Exec
use vangers_srv.Base.Exec.{Exec, pure, lift, inspect, convert, ◌>>=◌, ◌>>◌}
use vangers_srv.Protocol.{Packet}
use vangers_srv.Vanject.Ids.{get_world, is_non_global_vanject}
use vangers_srv.Game.{Game}
use vangers_srv.Server.{Server, reliable, in_game, notify_world, notify_game}
use vangers_srv.Server.Errors.{
  DeleteObjectError, player_not_found, OnUpdateError, delete_object_error, OnUpdateOk, complete,
}
use Answer.{decide}

-- What happens in the sender's game.
unfoldable pub delete_in_game : ℕ → ℕ → List ℕ → Exec Game DeleteObjectError Packet
delete_in_game client_id vanject_id bytes = do
  answer ← inspect (decide client_id vanject_id bytes)
  Exec.update λ (g : Game). record g { vanjects = remove vanject_id g.vanjects }
  pure answer

-- To the other players of the object's world, or of the game for a global object.
unfoldable pub tell_deleted : {E : Type 0} → ℕ → ℕ → Packet → Exec Server E (Unit {0})
tell_deleted client_id vanject_id answer =
    if is_non_global_vanject vanject_id
    then notify_world reliable client_id (get_world vanject_id) answer false
    else notify_game reliable client_id answer

-- `delete_object`
unfoldable pub delete_object : ℕ → Packet → Exec Server OnUpdateError OnUpdateOk
delete_object client_id packet = do
  vanject_id ← lift (word_at packet.bytes 0 4)
  answer ← convert delete_object_error (
      in_game client_id (err (player_not_found client_id))
        (delete_in_game client_id vanject_id packet.bytes))
  tell_deleted client_id vanject_id answer
  pure complete
