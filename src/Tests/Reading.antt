-- ===== src/Tests/Reading.antt =====
-- What is read from a client, at concrete streams (client.rs).
use vangers_srv.Base.{
  ◌++◌, map, ◌≤◌, ℕ, ◌+◌, ◌≡◌, refl, arith, List, [], ◌∷◌, length, take, drop, All, ok,
}
use vangers_srv.Protocol.{Packet, packet_of}
use vangers_srv.Protocol.Actions.{Action}
use vangers_srv.Protocol.Framing.{packet_of-IsPacket}
use vangers_srv.Incoming.{feed, new_reader, written, cut, endless}
use vangers_srv.Incoming.Frames.{IsFramed, frames}
use vangers_srv.Incoming.Streams.{concat, into, Reads}
use vangers_srv.Incoming.Session.{session}
use vangers_srv.Incoming.Session.Told.{session_told}
use vangers_srv.Server.{authenticated, updated, disconnected}
use vangers_srv.Protocol.{default_packet}
use vangers_srv.Incoming.Rounds.{Stuck, repeated, feed_ends}
use vangers_srv.Incoming.Handshake.{protocol_version, auth, judge, agrees}
use vangers_srv.Incoming.Greeting.{request_of, verdict, auth_verdict, auth_sound}

abbrev packets : List Packet
packets = packet_of Action.server_time_query (1 ∷ 2 ∷ []) ∷ []

abbrev chunks : List (List ℕ)
chunks = take 2 (frames packets) ∷ drop 2 (frames packets) ∷ []

framed : All IsFramed packets
unfolding packet_of
framed = (
  record {
    packet =
        packet_of-IsPacket Action.server_time_query (1 ∷ 2 ∷ []) (omega arith, (omega arith, tt))
          (omega arith);
    fits = omega arith;
  },
  tt,
)

stream_reads : Reads 0 chunks packets
unfolding into packet_of
stream_reads =
    (omega arith, (λ e. absurd (omega arith)), (omega arith, (λ e. absurd (omega arith)), tt))

-- A packet that claims a size of -2, behind one of one byte.
abbrev claims_nothing : List ℕ
claims_nothing = 1 ∷ 0 ∷ 0x87 ∷ 254 ∷ 255 ∷ []

feed_ends_example :
    (((feed new_reader claims_nothing).0.1 ≡ endless)
      → Stuck (written new_reader claims_nothing) (length claims_nothing + new_reader.held))
    × (Stuck (written new_reader claims_nothing) (length claims_nothing + new_reader.held)
        → (fuel : ℕ)
        → (cut fuel
            (written new_reader claims_nothing)
            (length claims_nothing + new_reader.held)
            0).1
          ≡ endless)
    × ((s : Stuck (written new_reader claims_nothing) (length claims_nothing + new_reader.held))
          (fuel : ℕ)
        → cut fuel
            (written new_reader claims_nothing)
            (length claims_nothing + new_reader.held)
            s.place
          ≡ (repeated fuel default_packet, endless))
feed_ends_example = feed_ends new_reader claims_nothing

stuck : (feed new_reader claims_nothing).0.1 ≡ endless
unfolding feed cut vangers_srv.Protocol.from_slice
stuck = refl

-- A request that comes in two reads.
abbrev greeting : List (List ℕ)
greeting = take 20 (request_of 6 []) ∷ drop 20 (request_of 6 []) ∷ []

auth_verdict_example : auth [] greeting ≡ verdict 6
auth_verdict_example = auth_verdict greeting 6 [] refl

accepted : auth [] greeting ≡ ok 6
unfolding auth judge agrees
accepted = refl

auth_sound_example :
    (more : List ℕ) × (concat greeting ≡ request_of 6 more) × (6 ≡ protocol_version)
auth_sound_example = auth_sound greeting 6 accepted

some_bytes : All (λ (c : List ℕ). 1 ≤ length c) greeting
some_bytes = (omega arith, (omega arith, tt))

-- The request, and a packet in two reads.
session_told_example :
    session (greeting ++ chunks)
    ≡ authenticated protocol_version ∷ (map (λ p. updated p) packets ++ disconnected ∷ [])
unfolding packet_of
session_told_example = session_told greeting chunks packets some_bytes refl framed refl stream_reads
