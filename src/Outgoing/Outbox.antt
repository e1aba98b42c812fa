-- ===== src/Outgoing/Outbox.antt =====
-- What waits to be written to a client, and what is written next: `send`, `send_reliable`,
-- `send_realtime_update` and the loop of `writer_loop`, vangers-srv/src/client.rs. The counters and the
-- log records are left out.
pub mod Sending
pub mod Writing
pub mod Reached
use vangers_srv.Base.{
  ℕ, ◌<◌, ◌≡◌, Bool, true, false, Option, none, some, List, [], ◌∷◌, ◌++◌, ltb, if◌then◌else◌,
  length, take, from_le,
}
use vangers_srv.Base.Exec
use vangers_srv.Base.Exec.{Exec, lift, ◌>>=◌, ◌>>◌}
use vangers_srv.Protocol.{Packet, as_bytes}
use vangers_srv.Protocol.Actions.{Action}
use vangers_srv.Outgoing.Updates.{Updates, replace, take_next, discard}

-- The bounded queue `tx_client`, the sends that were spawned because it was full, the two slots, and
-- whether the writer still reads the queue.
pub record Outbox : Type 0 where
  pub reading : Bool
  pub capacity : ℕ
  pub queued : List (List ℕ)
  pub spawned : List (List ℕ)
  pub server_time : Option (List ℕ)
  pub updates : Updates

-- `packet_object_id`
unfoldable pub packet_object_id : Packet → Option ℕ
packet_object_id p = if ltb (length p.bytes) 4 then none else some (from_le (take 4 p.bytes))

-- `DELETE_OBJECT | HIDE_OBJECT`
abbrev pub is_lifecycle : Action → Bool
is_lifecycle Action.delete_object = true
is_lifecycle Action.hide_object = true
is_lifecycle _ = false

-- A packet that ends an object drops the update of it that waits.
unfoldable pub drop_pending : Packet → Outbox → Outbox
drop_pending p o =
    if is_lifecycle p.action
    then elim (packet_object_id p) [
      | none ↦ o
      | some id ↦ record o { updates = (discard id o.updates).1 }
    ]
    else o

-- `try_send`: to the queue while there is room, and by a spawned send when there is none.
unfoldable pub enqueue : List ℕ → Outbox → Outbox
enqueue bytes o =
    if o.reading
    then (if ltb (length o.queued) o.capacity
        then record o { queued = o.queued ++ bytes ∷ [] }
        else record o { spawned = o.spawned ++ bytes ∷ [] })
    else o

-- `send_reliable`
unfoldable pub send_reliable : {E : Type 0} → Packet → Exec Outbox E (Unit {0})
send_reliable p = do
  Exec.update (drop_pending p)
  bytes ← lift (as_bytes p)
  Exec.update (enqueue bytes)

-- `send_latest_server_time`
unfoldable pub send_latest_server_time : {E : Type 0} → Packet → Exec Outbox E (Unit {0})
send_latest_server_time p = do
  bytes ← lift (as_bytes p)
  Exec.update λ (o : Outbox). record o { server_time = some bytes }

abbrev pub is_server_time : Action → Bool
is_server_time Action.server_time = true
is_server_time _ = false

-- `send`
unfoldable pub send : {E : Type 0} → Packet → Exec Outbox E (Unit {0})
send p = if is_server_time p.action then send_latest_server_time p else send_reliable p

abbrev pub is_update : Action → Bool
is_update Action.update_object = true
is_update _ = false

-- The newest update of an object takes the place of the one that waits.
unfoldable pub store_update : {E : Type 0} → ℕ → Packet → Exec Outbox E (Unit {0})
store_update id p = do
  bytes ← lift (as_bytes p)
  Exec.update λ (o : Outbox). record o { updates = (replace id bytes o.updates).1 }

-- `send_realtime_update`
unfoldable pub send_realtime_update : {E : Type 0} → Packet → Exec Outbox E (Unit {0})
send_realtime_update p =
    if is_update p.action
    then elim (packet_object_id p) [ some id ↦ store_update id p | none ↦ send_reliable p ]
    else send p

-- The update that has waited longest.
unfoldable pub next_update : Outbox → Option (List ℕ × Outbox)
next_update o =
    let (taken, updates) = take_next o.updates in
    elim taken [ some bytes ↦ some (bytes, record o { updates = updates }) | none ↦ none ]

unfoldable pub next_queued : List (List ℕ) → Outbox → Option (List ℕ × Outbox)
next_queued [] o = next_update o
next_queued (bytes ∷ rest) o = some (bytes, record o { queued = rest })

-- What the loop of `writer_loop` takes next, if something waits: the server's time, then the queue,
-- then the updates.
unfoldable pub next_packet : Outbox → Option (List ℕ × Outbox)
next_packet o = elim o.server_time [
  | some bytes ↦ some (bytes, record o { server_time = none })
  | none ↦ next_queued o.queued o
]

-- A step of the writer and the spawned sends: a packet is written, or a spawned send finds room. Which
-- of the spawned sends comes first is open.
pub data Step : Outbox → List (List ℕ) → Outbox → Type 0 where
  write :
      (o o' : Outbox) (bytes : List ℕ) → next_packet o ≡ some (bytes, o') → Step o (bytes ∷ []) o'
  land :
      (o : Outbox) (before after : List (List ℕ)) (bytes : List ℕ)
      → o.spawned ≡ before ++ bytes ∷ after
      → length o.queued < o.capacity
      → Step o [] (record o { spawned = before ++ after; queued = o.queued ++ bytes ∷ [] })

-- Several steps, with what they write.
pub data Steps : Outbox → List (List ℕ) → Outbox → Type 0 where
  stop : (o : Outbox) → Steps o [] o
  step :
      (o o' o2 : Outbox) (now later : List (List ℕ))
      → Step o now o'
      → Steps o' later o2
      → Steps o (now ++ later) o2
