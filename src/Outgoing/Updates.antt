-- ===== src/Outgoing/Updates.antt =====
-- The newest update of each object that waits to be written, `LatestObjectUpdates` of
-- vangers-srv/src/client.rs.
pub mod Invariant
pub mod Order
pub mod Queue
use vangers_srv.Base.{
  ℕ, Bool, true, false, not, Option, none, some, List, [], ◌∷◌, ◌++◌, ◌==◌, if◌then◌else◌, select,
  Map, lookup, remove, insert, is_some,
}

pub record Updates : Type 0 where
  pub order : List ℕ
  pub packets : Map (List ℕ)

-- `LatestObjectUpdates::default`
abbrev pub no_updates : Updates
no_updates = record { order = []; packets = [] }

-- `replace`; the flag says that an older packet of the object was waiting.
unfoldable pub replace : ℕ → List ℕ → Updates → Bool × Updates
replace id packet u =
    let replaced = is_some (lookup id u.packets) in
    (
      replaced,
      record {
        order = if replaced then u.order else u.order ++ id ∷ [];
        packets = insert id packet u.packets;
      },
    )

-- The loop of `take_next`: ids without a packet are passed over.
unfoldable pub take_from : List ℕ → Map (List ℕ) → Option (List ℕ) × Updates
take_from [] m = (none, record { order = []; packets = m })
take_from (id ∷ ids) m =
    let rest = take_from ids m in
    elim (lookup id m) [
      | none ↦ rest
      | some packet ↦ (some packet, record { order = ids; packets = remove id m })
    ]

-- `take_next`
unfoldable pub take_next : Updates → Option (List ℕ) × Updates
take_next u = take_from u.order u.packets

-- `remove`; the flag says that a packet of the object was waiting.
unfoldable pub discard : ℕ → Updates → Bool × Updates
discard id u =
    let removed = is_some (lookup id u.packets) in
    (
      removed,
      record {
        order = if removed then select (λ queued. not (queued == id)) u.order else u.order;
        packets = remove id u.packets;
      },
    )
