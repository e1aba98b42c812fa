-- ===== src/Server/Callback/Tables.antt =====
-- The handlers of objects keep what holds of every game (callback/*.rs).
pub mod Games
pub mod Valid
pub mod Players
pub mod Worlds
use vangers_srv.Base.{
  err, [], ◌∷◌, ℕ, ◌≡◌, sym, subst, Bool, true, false, not, ◌==◌, Option, none, some, List, map_err,
  panic, word_at, ltb, length, Bool-cases, inl, inr,
}
use vangers_srv.Base.Exec.{Exec, lift, convert, check, for_each, pure}
use vangers_srv.Base.Keeps.{
  Keeps, then-Keeps, lift-Keeps, convert-Keeps, check-Keeps, for_each-Keeps,
}
use vangers_srv.Protocol.{Packet, new}
use vangers_srv.Protocol.Actions.{Action}
use vangers_srv.Vanject.{Vanject, create_from_slice}
use vangers_srv.Vanject.Ids.{get_world, is_non_global_vanject}
use vangers_srv.Server.{
  Server, Channel, reliable, in_game, notify_world, notify_game, notify_player,
}
use vangers_srv.Server.Tables.{IsServer, in_game-IsServer, notify-IsServer, notify_world-IsServer}
use vangers_srv.Server.Errors.{
  OnUpdateError, item_transfer_error, update_object_error, delete_object_error, create_object_error,
  leave_world_error, slice_too_small, slice_to_vanject_parse, player_not_found,
}
use vangers_srv.Server.Callback.TransferPacket.{parse_item_transfer, validate}
use vangers_srv.Server.Callback.ItemTransfer.{transfer_in_game, item_transfer}
use vangers_srv.Server.Callback.UpdateObject.{update_in_game, tell, update_object}
use vangers_srv.Server.Callback.DeleteObject.{delete_in_game, tell_deleted, delete_object}
use vangers_srv.Server.Callback.CreateObject.{
  Creation, replay, create, create_in_game, tell_created, insert_object, finish, create_object,
}
use vangers_srv.Server.Callback.LeaveWorld.{leave_in_game, tell_left, leave_world}
use Valid.{
  transfer_in_game-IsGame, update_in_game-IsGame, delete_in_game-IsGame, create_in_game-IsGame,
  leave_in_game-IsGame, insert-IsGame,
}

tell-IsServer :
    (E : Type 0) (c : Channel) (client_id : ℕ) (told : Packet × (Bool × ℕ))
    → Keeps IsServer (tell {E = E} c client_id told)
unfolding tell
tell-IsServer E c client_id (p, (true, world)) = notify_world-IsServer E c client_id world p false
tell-IsServer E c client_id (p, (false, world)) =
    notify-IsServer E c client_id p (λ id. not (id == client_id))

pub item_transfer-IsServer :
    (client_id : ℕ) (packet : Packet) (s : Server)
    → IsServer s
    → IsServer (item_transfer client_id packet s).1
unfolding item_transfer
item_transfer-IsServer client_id packet =
    then-Keeps IsServer (lift (map_err item_transfer_error (parse_item_transfer packet.bytes))) _
      (lift-Keeps IsServer (map_err item_transfer_error (parse_item_transfer packet.bytes)))
      (λ t.
        then-Keeps IsServer (lift (map_err item_transfer_error (validate t))) _
          (lift-Keeps IsServer (map_err item_transfer_error (validate t)))
          (λ u.
            then-Keeps IsServer
              (convert item_transfer_error (
                in_game client_id (err (player_not_found client_id))
                  (transfer_in_game client_id t)))
              _
              (in_game-IsServer client_id (err (player_not_found client_id))
                (transfer_in_game client_id t) (λ k. transfer_in_game-IsGame k client_id t))
              (λ r.
                then-Keeps IsServer (notify_world reliable client_id r.0 r.1 false) _
                  (notify_world-IsServer OnUpdateError reliable client_id r.0 r.1 false)
                  (λ v s h. h))))

pub update_object-IsServer :
    (client_id : ℕ) (packet : Packet) (s : Server)
    → IsServer s
    → IsServer (update_object client_id packet s).1
unfolding update_object
update_object-IsServer client_id packet =
    then-Keeps IsServer
      (check (not (ltb (length packet.bytes) 4)) (update_object_error slice_too_small)) _
      (check-Keeps IsServer (not (ltb (length packet.bytes) 4))
        (update_object_error slice_too_small))
      (λ u.
        then-Keeps IsServer (lift (word_at packet.bytes 0 4)) _
          (lift-Keeps IsServer (word_at {E = OnUpdateError} packet.bytes 0 4))
          (λ id.
            then-Keeps IsServer
              (convert update_object_error (
                in_game client_id (err (player_not_found client_id))
                  (update_in_game client_id id packet.bytes)))
              _
              (in_game-IsServer client_id (err (player_not_found client_id))
                (update_in_game client_id id packet.bytes)
                (λ k. update_in_game-IsGame k client_id id packet.bytes))
              (λ told.
                then-Keeps IsServer (tell _ client_id told) _
                  (tell-IsServer OnUpdateError _ client_id told) (λ v s h. h))))

tell_deleted-IsServer :
    (E : Type 0) (client_id vanject_id : ℕ) (p : Packet)
    → Keeps IsServer (tell_deleted {E = E} client_id vanject_id p)
unfolding tell_deleted
tell_deleted-IsServer E client_id vanject_id p =
    elim (Bool-cases (is_non_global_vanject vanject_id)) [
      | inl e ↦ rw e (notify_world-IsServer E reliable client_id (get_world vanject_id) p false)
      | inr e ↦ rw e (notify-IsServer E reliable client_id p (λ id. not (id == client_id)))
    ]

pub delete_object-IsServer :
    (client_id : ℕ) (packet : Packet) (s : Server)
    → IsServer s
    → IsServer (delete_object client_id packet s).1
unfolding delete_object
delete_object-IsServer client_id packet =
    then-Keeps IsServer (lift (word_at packet.bytes 0 4)) _
      (lift-Keeps IsServer (word_at {E = OnUpdateError} packet.bytes 0 4))
      (λ id.
        then-Keeps IsServer
          (convert delete_object_error (
            in_game client_id (err (player_not_found client_id))
              (delete_in_game client_id id packet.bytes)))
          _
          (in_game-IsServer client_id (err (player_not_found client_id))
            (delete_in_game client_id id packet.bytes)
            (λ k. delete_in_game-IsGame k client_id id packet.bytes))
          (λ p.
            then-Keeps IsServer (tell_deleted client_id id p) _
              (tell_deleted-IsServer OnUpdateError client_id id p) (λ v s h. h)))

tell_created-IsServer :
    (E : Type 0) (client_id : ℕ) (told : Option (Packet × (Bool × ℕ)))
    → Keeps IsServer (tell_created {E = E} client_id told)
unfolding tell_created
tell_created-IsServer E client_id none = λ s h. h
tell_created-IsServer E client_id (some t) = tell-IsServer E reliable client_id t

finish-IsServer :
    (E : Type 0) (client_id : ℕ) (c : Creation) → Keeps IsServer (finish {E = E} client_id c)
unfolding finish insert_object
finish-IsServer E client_id (replay packets) =
    for_each-Keeps IsServer (λ p. notify_player client_id p) packets
      (λ p. notify-IsServer E reliable client_id p (λ id. id == client_id))
finish-IsServer E client_id (create v told) =
    then-Keeps IsServer (tell_created client_id told) _ (tell_created-IsServer E client_id told)
      (λ u. in_game-IsServer client_id panic _ (λ k g h. insert-IsGame k v g h))

pub create_object-IsServer :
    (client_id : ℕ) (packet : Packet) (s : Server)
    → IsServer s
    → IsServer (create_object client_id packet s).1
unfolding create_object
create_object-IsServer client_id packet =
    let parsed =
      map_err (λ e. create_object_error (slice_to_vanject_parse e))
        (create_from_slice packet.bytes) in
    then-Keeps IsServer (lift parsed) _ (lift-Keeps IsServer parsed) (λ v.
      then-Keeps IsServer
        (convert create_object_error
          (in_game client_id (err (player_not_found client_id)) (create_in_game client_id v)))
        _
        (in_game-IsServer client_id (err (player_not_found client_id)) (create_in_game client_id v)
          (λ k. create_in_game-IsGame k client_id v))
        (λ c.
          then-Keeps IsServer (finish client_id c) _ (finish-IsServer OnUpdateError client_id c)
            (λ u s h. h)))

tell_left-IsServer :
    (E : Type 0) (client_id : ℕ) (told : ℕ × List Packet)
    → Keeps IsServer (tell_left {E = E} client_id told)
unfolding tell_left
tell_left-IsServer E client_id (bind_id, packets) =
    then-Keeps IsServer (for_each (λ p. notify_game reliable client_id p) packets) _
      (for_each-Keeps IsServer (λ p. notify_game reliable client_id p) packets
        (λ p. notify-IsServer E reliable client_id p (λ id. not (id == client_id))))
      (λ u.
        then-Keeps IsServer (lift (new Action.players_world (bind_id ∷ 0 ∷ []))) _
          (lift-Keeps IsServer (new {E = E} Action.players_world (bind_id ∷ 0 ∷ [])))
          (λ p. notify-IsServer E reliable client_id p (λ id. not (id == client_id))))

pub leave_world-IsServer :
    (client_id : ℕ) (s : Server) → IsServer s → IsServer (leave_world client_id s).1
unfolding leave_world
leave_world-IsServer client_id =
    then-Keeps IsServer
      (convert leave_world_error
        (in_game client_id (err (player_not_found client_id)) (leave_in_game client_id)))
      _
      (in_game-IsServer client_id (err (player_not_found client_id)) (leave_in_game client_id)
        (λ k. leave_in_game-IsGame k client_id))
      (λ told.
        then-Keeps IsServer (tell_left client_id told) _
          (tell_left-IsServer OnUpdateError client_id told) (λ v s h. h))
