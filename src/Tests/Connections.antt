-- ===== src/Tests/Connections.antt =====
-- What waits to be written to a client, at concrete values (vangers-srv/src/client.rs).
use vangers_srv.Base.{◌≡◌, refl, true, none, some, [], ◌∷◌, ◌++◌, length, lookup, to_le, ◌+◌}
use vangers_srv.Protocol.{Packet}
use vangers_srv.Protocol.Actions.{Action}
use vangers_srv.Outgoing.Updates.{Updates, no_updates, replace, take_next}
use vangers_srv.Outgoing.Updates.Invariant.{IsQueue, no_updates-IsQueue, replace-IsQueue}
use vangers_srv.Outgoing.Updates.Order.{in_order}
use vangers_srv.Outgoing.Updates.Queue.{
  queue, put, head_of, tail_of, replace_refines, take_next_refines,
}
use vangers_srv.Outgoing.Outbox.{
  Outbox, packet_object_id, is_lifecycle, next_packet, send_reliable, send_realtime_update, Steps,
  stop, step, write, Step,
}
use vangers_srv.Outgoing.Outbox.Sending.{never_pending}
use vangers_srv.Outgoing.Outbox.Writing.{written, time_first, all_written}
use vangers_srv.Outgoing.Outbox.Reached.{fresh, realtime, Reached-IsQueue}
use vangers_srv.Server.Errors.{OnUpdateError}
use vangers_srv.Tests.Scene.{request}

-- Two objects wait, each with one packet.
abbrev one : Updates
one = (replace 7 (1 ∷ []) no_updates).1

abbrev two : Updates
two = (replace 8 (2 ∷ []) one).1

one-IsQueue : IsQueue one
one-IsQueue = replace-IsQueue 7 (1 ∷ []) no_updates no_updates-IsQueue

two-IsQueue : IsQueue two
two-IsQueue = replace-IsQueue 8 (2 ∷ []) one one-IsQueue

replace_refines_example : queue (replace 7 (3 ∷ []) two).1 ≡ put 7 (3 ∷ []) (queue two)
replace_refines_example = replace_refines 7 (3 ∷ []) two two-IsQueue

take_next_refines_example :
    ((take_next two).0 ≡ head_of (queue two)) × (queue (take_next two).1 ≡ tail_of (queue two))
take_next_refines_example = take_next_refines two two-IsQueue

abbrev box : Outbox
box = record {
  reading = true;
  capacity = 2;
  queued = (9 ∷ []) ∷ [];
  spawned = [];
  server_time = some (5 ∷ []);
  updates = two;
}

all_written_example :
    written
      (length (time_first box.server_time) + (length box.queued + length box.updates.order))
      box
    ≡ time_first box.server_time ++ (box.queued ++ in_order box.updates.order box.updates.packets)
all_written_example = all_written box two-IsQueue

abbrev deletion : Packet
deletion = request Action.delete_object (to_le 4 7)

abbrev deleting : Outbox
deleting = (send_reliable {E = OnUpdateError} deletion box).1

abbrev later : Outbox
later = record deleting { server_time = none }

deletes_seven : packet_object_id deletion ≡ some 7
unfolding packet_object_id
deletes_seven = refl

time_next : next_packet deleting ≡ some (5 ∷ [], later)
unfolding next_packet send_reliable vangers_srv.Protocol.as_bytes
    vangers_srv.Outgoing.Outbox.enqueue vangers_srv.Outgoing.Outbox.drop_pending packet_object_id
time_next = refl

one_step : Steps deleting ((5 ∷ []) ∷ []) later
one_step =
    step deleting later later ((5 ∷ []) ∷ []) [] (write deleting later (5 ∷ []) time_next)
      (stop later)

never_pending_example : lookup 7 later.updates.packets ≡ none
never_pending_example =
    never_pending OnUpdateError deletion 7 box later ((5 ∷ []) ∷ []) refl deletes_seven one_step

abbrev quiet : Outbox
quiet = record box { updates = no_updates }

abbrev moving : Packet
moving = request Action.update_object (to_le 4 7 ++ (1 ∷ []))

Reached-IsQueue_example : IsQueue (send_realtime_update {E = OnUpdateError} moving quiet).1.updates
Reached-IsQueue_example =
    Reached-IsQueue OnUpdateError (send_realtime_update {E = OnUpdateError} moving quiet).1
      (realtime moving quiet (fresh quiet refl))
