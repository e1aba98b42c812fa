-- ===== src/Incoming/Session/Told.antt =====
-- What the server hears of a client that speaks the protocol (client.rs).
use vangers_srv.Base.{
  ℕ, ◌≤◌, ◌<◌, ◌≡◌, refl, sym, ap, ◌∙◌, subst, arith, List, [], ◌∷◌, ◌++◌, append_assoc, append-nil,
  length, length-append, map, ltb, ltb→lt, ltb→le, Bool-cases, inl, inr, All,
}
use vangers_srv.Protocol.{Packet}
use vangers_srv.Server.{Connection, authenticated, disconnected, updated}
use vangers_srv.Incoming.{Reader, feed, new_reader}
use vangers_srv.Incoming.Handshake.{protocol_version}
use vangers_srv.Incoming.Greeting.{request_of, judge_request, auth_verdict}
use vangers_srv.Incoming.Frames.{frames, IsFramed}
use vangers_srv.Incoming.Streams.{concat, into, into_zero, Reads, nothing_left}
use vangers_srv.Incoming.Reads.{next}
use vangers_srv.Incoming.Reading.{Holds, Reading, feed_read, new_reader-Holds}
use vangers_srv.Incoming.Session.{auth_left, read_events, session}

abbrev told : List Packet → List Connection
told ps = map (λ p. updated p) ps

told-append : (ps qs : List Packet) → told (ps ++ qs) ≡ told ps ++ told qs
told-append [] qs = refl
told-append (p ∷ ps) qs = ap (λ t. updated p ∷ t) (told-append ps qs)

concat-append : (cs ds : List (List ℕ)) → concat (cs ++ ds) ≡ concat cs ++ concat ds
concat-append [] ds = refl
concat-append (c ∷ cs) ds =
    ap (λ t. c ++ t) (concat-append cs ds) ∙ sym (append_assoc c (concat cs) (concat ds))

-- Chunks of at least one byte that come to nothing are none.
no_chunks : (cs : List (List ℕ)) → All (λ c. 1 ≤ length c) cs → length (concat cs) ≡ 0 → cs ≡ []
no_chunks [] h e = refl
no_chunks (c ∷ cs) h e = absurd (omega (arith, h.0, length-append c (concat cs)))

-- The handshake reads the chunks of the request and no other.
auth_left-request :
    (hello later : List (List ℕ)) (received : List ℕ) (v : ℕ)
    → All (λ c. 1 ≤ length c) hello
    → received ++ concat hello ≡ request_of v []
    → length received < 38
    → auth_left received (hello ++ later) ≡ later
unfolding auth_left
auth_left-request [] later received v some_bytes e short =
    absurd (omega (arith, ap length (sym (append-nil received) ∙ e)))
auth_left-request (c ∷ cs) later received v some_bytes e short =
    let joined = append_assoc received c (concat cs) ∙ e in
    let judged = judge_request (received ++ c) (concat cs) v [] joined in
    elim (Bool-cases (ltb (length (received ++ c)) 38)) [
      | inl t ↦
          rw (auth_left, judged, t)
            (auth_left-request cs later (received ++ c) v some_bytes.1 joined (ltb→lt _ _ t))
      | inr t ↦
          let none_left = no_chunks cs some_bytes.1 (
            omega
              (arith, ltb→le _ _ t, ap length joined, length-append (received ++ c) (concat cs))) in
          rw (auth_left, judged, t) (ap (λ xs. xs ++ later) none_left)
    ]

read_step :
    (r : Reader) (chunk rest : List ℕ) (chunks : List (List ℕ)) (ps : List Packet)
    → Reading r chunk rest ps
    → read_events r (chunk ∷ chunks) ≡ told ps ++ read_events (feed r chunk).1 chunks
unfolding read_events
read_step r chunk rest chunks ps (e, fed, on, holds) = rw (fed, on) refl

read_events-stream :
    (chunks : List (List ℕ)) (r : Reader) (pending : List ℕ) (ps : List Packet)
    → Holds r pending
    → All IsFramed ps
    → pending ++ concat chunks ≡ frames ps
    → into (length pending) ps ≡ length pending
    → Reads (length pending) chunks ps
    → read_events r chunks ≡ told ps ++ disconnected ∷ []
unfolding read_events
read_events-stream [] r pending ps h framed stream inside reads =
    let whole : pending ≡ frames ps = sym (append-nil pending) ∙ stream in
    ap (λ t. told t ++ disconnected ∷ [])
      (sym (nothing_left ps (subst (λ t. into (length t) ps ≡ length t) whole inside)))
read_events-stream (chunk ∷ chunks) r pending ps h framed stream inside reads =
    let n = next ps pending chunk chunks framed stream reads in
    let fed =
      feed_read r pending chunk n.rest n.passed h n.behind n.splits (omega (arith, reads.0, inside))
        n.kept in
    read_step r chunk n.rest chunks n.passed fed
    ∙ ap (λ t. told n.passed ++ t)
        (read_events-stream chunks (feed r chunk).1 n.rest n.coming fed.3 n.ahead n.joins n.inside
          n.later)
    ∙ sym (append_assoc (told n.passed) (told n.coming) (disconnected ∷ []))
    ∙ ap (λ t. t ++ disconnected ∷ [])
        (sym (told-append n.passed n.coming) ∙ ap told (sym n.packets))

-- When a client sends the request of the server's version, and then packets, each read back as it is and
-- with a frame that fits the buffer, when no read spans the end of the request, and when no later read
-- brings more than there is room for or ends one byte into a packet, then, wherever else the reads cut
-- what it sends, the server hears that the client is authenticated, then exactly these packets in their
-- order, and then that it is gone.
pub session_told :
    (hello chunks : List (List ℕ)) (ps : List Packet)
    → All (λ c. 1 ≤ length c) hello
    → concat hello ≡ request_of protocol_version []
    → All IsFramed ps
    → concat chunks ≡ frames ps
    → Reads 0 chunks ps
    → session (hello ++ chunks)
      ≡ authenticated protocol_version ∷ (map (λ p. updated p) ps ++ disconnected ∷ [])
unfolding session
session_told hello chunks ps some_bytes greets framed stream reads =
    let sent : concat (hello ++ chunks) ≡ request_of protocol_version (concat chunks) =
      concat-append hello chunks ∙ ap (λ t. t ++ concat chunks) greets in
    rw (session, auth_verdict (hello ++ chunks) protocol_version (concat chunks) sent)
      (ap (λ t. authenticated protocol_version ∷ t)
        (ap (read_events new_reader)
            (auth_left-request hello chunks [] protocol_version some_bytes greets (omega arith))
          ∙ read_events-stream chunks new_reader [] ps new_reader-Holds framed stream
              (into_zero ps framed) reads))
