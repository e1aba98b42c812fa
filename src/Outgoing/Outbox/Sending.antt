-- ===== src/Outgoing/Outbox/Sending.antt =====
-- Sending keeps the waiting updates in order, and no update outlives its object (client.rs).
use vangers_srv.Base.{
  ℕ, ◌≡◌, refl, ap, ◌∙◌, sym, subst, true, none, some, List, [], ◌∷◌, arith, Map, lookup,
  lookup-remove, Result-cases, Option-cases, Bool-cases, inl, inr, ◌⊎◌,
}
use vangers_srv.Protocol.{Packet, as_bytes}
use vangers_srv.Outgoing.Updates.{take_next, take_from, discard}
use vangers_srv.Outgoing.Updates.Invariant.{
  IsQueue, replace-IsQueue, discard-IsQueue, take_next-IsQueue,
}
use vangers_srv.Outgoing.Outbox.{
  Outbox, packet_object_id, is_lifecycle, drop_pending, enqueue, send_reliable,
  send_latest_server_time, is_server_time, send, is_update, store_update, send_realtime_update,
  next_update, next_queued, next_packet, Step, write, land, Steps, stop, step,
}

enqueue-updates : (bytes : List ℕ) (o : Outbox) → (enqueue bytes o).updates ≡ o.updates
unfolding enqueue
enqueue-updates bytes o = ground arith

send_reliable-updates :
    (E : Type 0) (p : Packet) (o : Outbox)
    → (send_reliable {E = E} p o).1.updates ≡ (drop_pending p o).updates
unfolding send_reliable
send_reliable-updates E p o = elim (Result-cases (as_bytes {E = E} p)) [
  | inl (b, e) ↦ rw e (enqueue-updates b (drop_pending p o))
  | inr (inl (d, e)) ↦ rw e refl
  | inr (inr e) ↦ rw e refl
]

drop_pending-IsQueue :
    (p : Packet) (o : Outbox) → IsQueue o.updates → IsQueue (drop_pending p o).updates
unfolding drop_pending
drop_pending-IsQueue p o q = elim (Bool-cases (is_lifecycle p.action)) [
  | inr e ↦ rw e q
  | inl e ↦ elim (Option-cases (packet_object_id p)) [
    | inl e' ↦ rw (e, e') q
    | inr (id, e') ↦ rw (e, e') (discard-IsQueue id o.updates q)
  ]
]

drop_pending-none :
    (p : Packet) (id : ℕ) (o : Outbox)
    → is_lifecycle p.action ≡ true
    → packet_object_id p ≡ some id
    → lookup id (drop_pending p o).updates.packets ≡ none
unfolding drop_pending discard
drop_pending-none p id o e e' = rw (e, e') (lookup-remove id id o.updates.packets ∙ ground arith)

-- After the packet that deletes or hides an object is sent, no update of the object waits.
pub nothing_pending :
    (E : Type 0) (p : Packet) (id : ℕ) (o : Outbox)
    → is_lifecycle p.action ≡ true
    → packet_object_id p ≡ some id
    → lookup id (send_reliable {E = E} p o).1.updates.packets ≡ none
nothing_pending E p id o e e' =
    ap (λ u. lookup id u.packets) (send_reliable-updates E p o) ∙ drop_pending-none p id o e e'

take_from-none :
    (ids : List ℕ) (m : Map (List ℕ)) (id : ℕ)
    → lookup id m ≡ none
    → lookup id (take_from ids m).1.packets ≡ none
unfolding take_from
take_from-none [] m id h = h
take_from-none (x ∷ xs) m id h = ground (arith, take_from-none xs m id h, lookup-remove x id m)

next_update-updates :
    (o o' : Outbox) (bytes : List ℕ)
    → next_update o ≡ some (bytes, o')
    → o'.updates ≡ (take_next o.updates).1
unfolding next_update
next_update-updates o o' bytes e = elim (Option-cases (take_next o.updates).0) [
  | inl k ↦ absurd (ground arith)
  | inr (b, k) ↦ ground arith
]

next_queued-updates :
    (queued : List (List ℕ)) (o o' : Outbox) (bytes : List ℕ)
    → next_queued queued o ≡ some (bytes, o')
    → (o'.updates ≡ o.updates) ⊎ (o'.updates ≡ (take_next o.updates).1)
unfolding next_queued
next_queued-updates [] o o' bytes e = inr (next_update-updates o o' bytes e)
next_queued-updates (b ∷ rest) o o' bytes e = inl (ground arith)

-- Taking a packet leaves the updates alone, or takes the next of them.
next_packet-updates :
    (o o' : Outbox) (bytes : List ℕ)
    → next_packet o ≡ some (bytes, o')
    → (o'.updates ≡ o.updates) ⊎ (o'.updates ≡ (take_next o.updates).1)
unfolding next_packet
next_packet-updates o o' bytes e = elim (Option-cases o.server_time) [
  | inr (t, h) ↦ inl (ground arith)
  | inl h ↦ next_queued-updates o.queued o o' bytes (ground arith)
]

-- What no update waits for, no step of the writer brings back.
Step-quiet :
    (o o' : Outbox) (ws : List (List ℕ)) (id : ℕ)
    → Step o ws o'
    → lookup id o.updates.packets ≡ none
    → lookup id o'.updates.packets ≡ none
unfolding take_next
Step-quiet _ _ _ id (write o o' bytes e) h = elim (next_packet-updates o o' bytes e) [
  | inl same ↦ ap (λ u. lookup id u.packets) same ∙ h
  | inr same ↦
      ap (λ u. lookup id u.packets) same ∙ take_from-none o.updates.order o.updates.packets id h
]
Step-quiet _ _ _ id (land o before after bytes e room) h = h

Steps-quiet :
    (o o' : Outbox) (ws : List (List ℕ)) (id : ℕ)
    → Steps o ws o'
    → lookup id o.updates.packets ≡ none
    → lookup id o'.updates.packets ≡ none
Steps-quiet _ _ _ id (stop o) h = h
Steps-quiet _ _ _ id (step o o1 o2 now later first rest) h =
    Steps-quiet o1 o2 later id rest (Step-quiet o o1 now id first h)

-- After the packet that deletes or hides an object is sent, whatever the writer and the spawned
-- sends then do, no update of the object waits in the slot of the newest updates, as long as no
-- new one is sent; the outcome of the sending does not matter.
pub never_pending :
    (E : Type 0) (p : Packet) (id : ℕ) (o o' : Outbox) (ws : List (List ℕ))
    → is_lifecycle p.action ≡ true
    → packet_object_id p ≡ some id
    → Steps (send_reliable {E = E} p o).1 ws o'
    → lookup id o'.updates.packets ≡ none
never_pending E p id o o' ws e e' run =
    Steps-quiet (send_reliable {E = E} p o).1 o' ws id run (nothing_pending E p id o e e')

Step-IsQueue :
    (o o' : Outbox) (ws : List (List ℕ)) → Step o ws o' → IsQueue o.updates → IsQueue o'.updates
Step-IsQueue _ _ _ (write o o' bytes e) q = elim (next_packet-updates o o' bytes e) [
  | inl same ↦ subst IsQueue (sym same) q
  | inr same ↦ subst IsQueue (sym same) (take_next-IsQueue o.updates q)
]
Step-IsQueue _ _ _ (land o before after bytes e room) q = q

-- Whatever the writer and the spawned sends do, the order of the waiting updates stays a list of
-- exactly the objects that have a packet, each once.
pub Steps-IsQueue :
    (o o' : Outbox) (ws : List (List ℕ)) → Steps o ws o' → IsQueue o.updates → IsQueue o'.updates
Steps-IsQueue _ _ _ (stop o) q = q
Steps-IsQueue _ _ _ (step o o1 o2 now later first rest) q =
    Steps-IsQueue o1 o2 later rest (Step-IsQueue o o1 now first q)

pub send_reliable-IsQueue :
    (E : Type 0) (p : Packet) (o : Outbox)
    → IsQueue o.updates
    → IsQueue (send_reliable {E = E} p o).1.updates
send_reliable-IsQueue E p o q =
    subst IsQueue (sym (send_reliable-updates E p o)) (drop_pending-IsQueue p o q)

send_latest_server_time-IsQueue :
    (E : Type 0) (p : Packet) (o : Outbox)
    → IsQueue o.updates
    → IsQueue (send_latest_server_time {E = E} p o).1.updates
unfolding send_latest_server_time
send_latest_server_time-IsQueue E p o q = elim (Result-cases (as_bytes {E = E} p)) [
  | inl (b, e) ↦ rw e q
  | inr (inl (d, e)) ↦ rw e q
  | inr (inr e) ↦ rw e q
]

store_update-IsQueue :
    (E : Type 0) (id : ℕ) (p : Packet) (o : Outbox)
    → IsQueue o.updates
    → IsQueue (store_update {E = E} id p o).1.updates
unfolding store_update
store_update-IsQueue E id p o q = elim (Result-cases (as_bytes {E = E} p)) [
  | inl (b, e) ↦ rw e (replace-IsQueue id b o.updates q)
  | inr (inl (d, e)) ↦ rw e q
  | inr (inr e) ↦ rw e q
]

pub send-IsQueue :
    (E : Type 0) (p : Packet) (o : Outbox)
    → IsQueue o.updates
    → IsQueue (send {E = E} p o).1.updates
unfolding send
send-IsQueue E p o q = elim (Bool-cases (is_server_time p.action)) [
  | inl e ↦ rw e (send_latest_server_time-IsQueue E p o q)
  | inr e ↦ rw e (send_reliable-IsQueue E p o q)
]

-- Sending a packet as a realtime update, whatever its action, bytes and outcome, keeps the order
-- of the waiting updates a list of exactly the objects that have a packet, each once.
pub send_realtime_update-IsQueue :
    (E : Type 0) (p : Packet) (o : Outbox)
    → IsQueue o.updates
    → IsQueue (send_realtime_update {E = E} p o).1.updates
unfolding send_realtime_update
send_realtime_update-IsQueue E p o q = elim (Bool-cases (is_update p.action)) [
  | inr e ↦ rw e (send-IsQueue E p o q)
  | inl e ↦ elim (Option-cases (packet_object_id p)) [
    | inl e' ↦ rw (e, e') (send_reliable-IsQueue E p o q)
    | inr (id, e') ↦ rw (e, e') (store_update-IsQueue E id p o q)
  ]
]
