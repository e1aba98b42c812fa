-- ===== src/Outgoing/Updates/Queue.antt =====
-- The waiting updates as a queue of objects with their packets, and the operations on it (client.rs).
use vangers_srv.Base.{
  ℕ, ◌≡◌, refl, ◌∙◌, true, false, not, Option, none, some, List, [], ◌∷◌, ◌++◌, arith, ◌==◌,
  if◌then◌else◌, select, contains, Map, lookup, remove, insert, lookup-insert, lookup-remove,
  is_some, Bool-cases, inl, inr,
}
use vangers_srv.Outgoing.Updates.{Updates, replace, take_from, take_next, discard}
use vangers_srv.Outgoing.Updates.Invariant.{Distinct, IsQueue, take_first}

-- The objects of an order that have a packet.
abbrev pub entries : List ℕ → Map (List ℕ) → Map (List ℕ)
entries [] m = []
entries (id ∷ ids) m =
    let rest = entries ids m in elim (lookup id m) [ none ↦ rest | some p ↦ (id, p) ∷ rest ]

-- The queue that a state of the updates stands for.
abbrev pub queue : Updates → Map (List ℕ)
queue u = entries u.order u.packets

-- A newer packet takes the place of the object's older one; a new object comes last.
abbrev pub put : ℕ → List ℕ → Map (List ℕ) → Map (List ℕ)
put id p [] = (id, p) ∷ []
put id p ((j, q) ∷ xs) = let rest = put id p xs in if j == id then (id, p) ∷ xs else (j, q) ∷ rest

-- The queue without an object.
abbrev pub without : ℕ → Map (List ℕ) → Map (List ℕ)
without id xs = select (λ e. not (e.0 == id)) xs

entries-insert_absent :
    (ids : List ℕ) (id : ℕ) (p : List ℕ) (m : Map (List ℕ))
    → contains ids id ≡ false
    → entries ids (insert id p m) ≡ entries ids m
entries-insert_absent [] id p m h = refl
entries-insert_absent (x ∷ xs) id p m h =
    ground (arith, lookup-insert id x p m, entries-insert_absent xs id p m)

entries-insert_waiting :
    (ids : List ℕ) (id : ℕ) (p : List ℕ) (m : Map (List ℕ))
    → Distinct ids
    → is_some (lookup id m) ≡ true
    → contains ids id ≡ true
    → entries ids (insert id p m) ≡ put id p (entries ids m)
entries-insert_waiting [] id p m d w h = absurd (ground arith)
entries-insert_waiting (x ∷ xs) id p m d w h = elim (Bool-cases (x == id)) [
  | inl e ↦ ground (arith, d.0, lookup-insert id x p m, entries-insert_absent xs id p m)
  | inr e ↦ ground (arith, lookup-insert id x p m, entries-insert_waiting xs id p m d.1 w)
]

entries-insert_new :
    (ids : List ℕ) (id : ℕ) (p : List ℕ) (m : Map (List ℕ))
    → contains ids id ≡ false
    → entries (ids ++ id ∷ []) (insert id p m) ≡ put id p (entries ids m)
entries-insert_new [] id p m h = ground (arith, lookup-insert id id p m)
entries-insert_new (x ∷ xs) id p m h =
    ground (arith, lookup-insert id x p m, entries-insert_new xs id p m)

-- On a well-formed state, storing an update puts its packet in the place of the older one of the
-- object, or at the end when the object had none; the other objects keep their packets and places.
pub replace_refines :
    (id : ℕ) (p : List ℕ) (u : Updates) → IsQueue u → queue (replace id p u).1 ≡ put id p (queue u)
unfolding replace
replace_refines id p u q = elim (Bool-cases (is_some (lookup id u.packets))) [
  | inl e ↦ rw e (entries-insert_waiting u.order id p u.packets q.distinct e (q.listed id ∙ e))
  | inr e ↦ rw e (entries-insert_new u.order id p u.packets (q.listed id ∙ e))
]

entries-remove :
    (ids : List ℕ) (id : ℕ) (m : Map (List ℕ))
    → entries ids (remove id m) ≡ without id (entries ids m)
entries-remove [] id m = refl
entries-remove (x ∷ xs) id m = ground (arith, lookup-remove id x m, entries-remove xs id m)

entries-select :
    (ids : List ℕ) (id : ℕ) (m : Map (List ℕ))
    → entries (select (λ q. not (q == id)) ids) (remove id m) ≡ without id (entries ids m)
entries-select [] id m = refl
entries-select (x ∷ xs) id m = ground (arith, lookup-remove id x m, entries-select xs id m)

-- Dropping the update of an object takes that object out of the queue and leaves the others in
-- their order.
pub discard_refines : (id : ℕ) (u : Updates) → queue (discard id u).1 ≡ without id (queue u)
unfolding discard
discard_refines id u = elim (Bool-cases (is_some (lookup id u.packets))) [
  | inl e ↦ rw e (entries-select u.order id u.packets)
  | inr e ↦ rw e (entries-remove u.order id u.packets)
]

-- Taking the head of a queue.
abbrev pub head_of : Map (List ℕ) → Option (List ℕ)
head_of [] = none
head_of ((id, p) ∷ xs) = some p

abbrev pub tail_of : Map (List ℕ) → Map (List ℕ)
tail_of [] = []
tail_of (x ∷ xs) = xs

entries-remove_absent :
    (ids : List ℕ) (id : ℕ) (m : Map (List ℕ))
    → contains ids id ≡ false
    → entries ids (remove id m) ≡ entries ids m
entries-remove_absent [] id m h = refl
entries-remove_absent (x ∷ xs) id m h =
    ground (arith, lookup-remove id x m, entries-remove_absent xs id m)

taken_refines :
    (ids : List ℕ) (m : Map (List ℕ))
    → IsQueue (record { order = ids; packets = m })
    → ((take_next (record { order = ids; packets = m })).0 ≡ head_of (entries ids m))
      × (queue (take_next (record { order = ids; packets = m })).1 ≡ tail_of (entries ids m))
unfolding take_next take_from
taken_refines [] m q = (refl, refl)
taken_refines (id ∷ ids) m q =
    let (p, e, taken) = take_first id ids m q in
    ground (arith, taken, e, entries-remove_absent ids id m, q.distinct.0)

-- On a well-formed state, taking the next update gives the packet at the head of the queue and
-- leaves its tail; it gives nothing only when the queue is empty.
pub take_next_refines :
    (u : Updates)
    → IsQueue u
    → ((take_next u).0 ≡ head_of (queue u)) × (queue (take_next u).1 ≡ tail_of (queue u))
take_next_refines u q = taken_refines u.order u.packets q
