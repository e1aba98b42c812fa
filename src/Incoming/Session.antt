-- ===== src/Incoming/Session.antt =====
-- What the tasks of a client tell the server, vangers-srv/src/client.rs: `event_loop`, on the chunks that
-- are read until the client closes the connection, each of at least one byte.
pub mod Told
use vangers_srv.Base.{ℕ, none, some, List, [], ◌∷◌, ◌++◌, map, if◌then◌else◌, ok, err, panic}
use vangers_srv.Server.{Connection, authenticated, disconnected, updated}
use vangers_srv.Incoming.{Reader, feed, goes_on, new_reader}
use vangers_srv.Incoming.Handshake.{judge, auth}

-- The chunks that are still to be read when the handshake ends. What came behind the handshake in its
-- last chunk is lost.
unfoldable pub auth_left : List ℕ → List (List ℕ) → List (List ℕ)
auth_left received [] = []
auth_left received (chunk ∷ chunks) = elim (judge (received ++ chunk)) [
  | some r ↦ chunks
  | none ↦ auth_left (received ++ chunk) chunks
]

-- The loop of the reader. A task that panics or that never ends does not tell that the client is gone.
unfoldable pub read_events : Reader → List (List ℕ) → List Connection
read_events r [] = disconnected ∷ []
read_events r (chunk ∷ chunks) =
    let ((ps, end), r') = feed r chunk in
    let rest = read_events r' chunks in
    let told = map (λ p. updated p) ps in if goes_on end then told ++ rest else told

-- `event_loop`
unfoldable pub session : List (List ℕ) → List Connection
session chunks = elim (auth [] chunks) [
  | ok version ↦ authenticated version ∷ read_events new_reader (auth_left [] chunks)
  | err e ↦ disconnected ∷ []
  | panic ↦ []
]
