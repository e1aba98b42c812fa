-- ===== src/Outgoing/Outbox/Reached.antt =====
-- What holds of what waits for a client, whenever (vangers-srv/src/client.rs).
use vangers_srv.Base.{ℕ, ◌≡◌, sym, subst, List}
use vangers_srv.Protocol.{Packet}
use vangers_srv.Outgoing.Updates.{no_updates}
use vangers_srv.Outgoing.Updates.Invariant.{IsQueue, no_updates-IsQueue}
use vangers_srv.Outgoing.Outbox.{Outbox, send_reliable, send, send_realtime_update, Steps}
use vangers_srv.Outgoing.Outbox.Sending.{
  send_reliable-IsQueue, send-IsQueue, send_realtime_update-IsQueue, Steps-IsQueue,
}

-- What waits, after any sends and any steps of the writer and of the spawned sends, from a time when
-- no update waits.
pub data Reached (E : Type 0) : Outbox → Type 0 where
  fresh : (o : Outbox) → o.updates ≡ no_updates → Reached E o
  sent : (p : Packet) (o : Outbox) → Reached E o → Reached E (send {E = E} p o).1
  reliable : (p : Packet) (o : Outbox) → Reached E o → Reached E (send_reliable {E = E} p o).1
  realtime :
      (p : Packet) (o : Outbox) → Reached E o → Reached E (send_realtime_update {E = E} p o).1
  ran : (o o' : Outbox) (ws : List (List ℕ)) → Steps o ws o' → Reached E o → Reached E o'

-- However packets are sent to a client, in each of the three ways, and whatever its writer and the
-- spawned sends do in between: the order of the waiting updates is a list of exactly the objects that
-- have a packet, each once.
pub Reached-IsQueue : (E : Type 0) (o : Outbox) → Reached E o → IsQueue o.updates
Reached-IsQueue E o (fresh _ e) = subst IsQueue (sym e) no_updates-IsQueue
Reached-IsQueue E _ (sent p o r) = send-IsQueue E p o (Reached-IsQueue E o r)
Reached-IsQueue E _ (reliable p o r) = send_reliable-IsQueue E p o (Reached-IsQueue E o r)
Reached-IsQueue E _ (realtime p o r) = send_realtime_update-IsQueue E p o (Reached-IsQueue E o r)
Reached-IsQueue E o' (ran o _ ws run r) = Steps-IsQueue o o' ws run (Reached-IsQueue E o r)
