-- ===== src/Outgoing/Outbox/Writing.antt =====
-- In which order the writer writes what waits (client.rs).
use vangers_srv.Base.{
  ℕ, zero, suc, ◌+◌, ◌≡◌, refl, ap, ◌∙◌, subst, Option, none, some, List, [], ◌∷◌, ◌++◌, arith,
  length, Map, remove,
}
use native.Mathlib.Nat.{zero-add, suc-add}
use vangers_srv.Outgoing.Updates.{Updates, take_next}
use vangers_srv.Outgoing.Updates.Invariant.{IsQueue, take_first, take_next-IsQueue}
use vangers_srv.Outgoing.Updates.Order.{in_order, in_order-remove}
use vangers_srv.Outgoing.Outbox.{Outbox, next_update, next_queued, next_packet}

-- What the writer writes in `n` rounds in which nothing new comes.
unfoldable pub written : ℕ → Outbox → List (List ℕ)
written zero o = []
written (suc n) o = elim (next_packet o) [ none ↦ [] | some (bytes, o') ↦ bytes ∷ written n o' ]

-- The server's time, if one waits.
abbrev pub time_first : Option (List ℕ) → List (List ℕ)
time_first none = []
time_first (some bytes) = bytes ∷ []

-- The outbox with some packets in the queue, and some updates, and without a time.
abbrev holding : Outbox → List (List ℕ) → Updates → Outbox
holding o queued updates = record o { server_time = none; queued = queued; updates = updates }

update_next :
    (o : Outbox) (u u' : Updates) (p : List ℕ)
    → take_next u ≡ (some p, u')
    → next_packet (holding o [] u) ≡ some (p, holding o [] u')
unfolding next_packet next_queued next_update
update_next o u u' p e = ground arith

updates_written :
    (ids : List ℕ) (m : Map (List ℕ)) (o : Outbox)
    → IsQueue (record { order = ids; packets = m })
    → written (length ids) (holding o [] (record { order = ids; packets = m })) ≡ in_order ids m
unfolding written
updates_written [] m o q = refl
updates_written (id ∷ ids) m o q =
    let (p, e, taken) = take_first id ids m q in
    let u : Updates = record { order = id ∷ ids; packets = m } in
    let u' : Updates = record { order = ids; packets = remove id m } in
    let q' : IsQueue u' = subst (λ r. IsQueue r.1) taken (take_next-IsQueue u q) in
    ground (
      arith,
      update_next o u u' p taken,
      e,
      updates_written ids (remove id m) o q',
      in_order-remove ids id m q.distinct.0,
    )

queued_written :
    (queued : List (List ℕ)) (n : ℕ) (o : Outbox) (u : Updates)
    → written (length queued + n) (holding o queued u) ≡ queued ++ written n (holding o [] u)
unfolding written next_packet next_queued
queued_written [] n o u = rw zero-add refl
queued_written (b ∷ bs) n o u = rw suc-add (ap (λ t. b ∷ t) (queued_written bs n o u))

time_written :
    (t : Option (List ℕ)) (n : ℕ) (o : Outbox)
    → written (length (time_first t) + n) (record o { server_time = t })
      ≡ time_first t ++ written n (record o { server_time = none })
unfolding written next_packet
time_written none n o = rw zero-add refl
time_written (some b) n o = rw (suc-add, zero-add) refl

-- When the order of the updates lists exactly the objects that have a packet, each once, and
-- nothing new comes and no spawned send lands, the writer writes everything that waits in as many
-- rounds as packets wait: the time of the server, then the queue in order, then the newest update
-- of each object in the order in which the objects came to wait.
pub all_written :
    (o : Outbox)
    → IsQueue o.updates
    → written (length (time_first o.server_time) + (length o.queued + length o.updates.order)) o
      ≡ time_first o.server_time ++ (o.queued ++ in_order o.updates.order o.updates.packets)
all_written o q =
    time_written o.server_time (length o.queued + length o.updates.order) o
    ∙ ap (λ t. time_first o.server_time ++ t)
        (queued_written o.queued (length o.updates.order) o o.updates
          ∙ ap (λ t. o.queued ++ t) (updates_written o.updates.order o.updates.packets o q))
