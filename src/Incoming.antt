-- ===== src/Incoming.antt =====
-- What is read from a client, vangers-srv/src/client.rs: the loop of `event_loop` that cuts packets out of
-- the read buffer, and the handshake. A read gives a chunk of bytes; sockets and tasks are left out.
pub mod Handshake
pub mod Frames
pub mod Streams
pub mod Reads
pub mod Reading
pub mod Rounds
pub mod Greeting
pub mod Session
use vangers_srv.Base.{
  ℕ, zero, suc, ◌+◌, ◌-◌, ◌%◌, ◌^◌, Bool, true, false, not, Option, none, some, List, [], ◌∷◌, ◌++◌,
  ltb, if◌then◌else◌, length, take, drop, byte, from_le, sub_list, Result, ok, err, panic,
}
use vangers_srv.Protocol.{Packet, from_slice}

-- `buff` and `buff_offset`: the first `held` bytes of the buffer are what is left of the last read.
pub record Reader : Type 0 where
  pub buff : List ℕ
  pub held : ℕ

-- `i16::MAX`
abbrev pub buff_size : ℕ
buff_size = 2 ^ 15 - 1

abbrev pub zeros : ℕ → List ℕ
zeros zero = []
zeros (suc n) = 0 ∷ zeros n

-- The number of bytes of a packet, as the bit pattern of an `i16`; the sum wraps around.
abbrev pub packet_size : ℕ → ℕ → ℕ
packet_size b0 b1 = (2 + from_le (b0 ∷ b1 ∷ [])) % 2 ^ 16

-- How the loop over the buffer ends: at the end of what was read, in the middle of a packet, at a
-- negative size, with an index out of range, or not within the fuel.
pub data End : Type 0 where
  done waiting negative : ℕ → End
  out_of_range endless : End

-- A packet before those of the rest.
abbrev pub then_packets : Result End Packet → List Packet × End → List Packet × End
then_packets (ok p) (ps, end) = (p ∷ ps, end)
then_packets (err e) (ps, end) = ([], out_of_range)
then_packets panic (ps, end) = ([], out_of_range)

-- `while offset < buff_readable_size`, with fuel. The packets are those that are sent to the server.
unfoldable pub cut : ℕ → List ℕ → ℕ → ℕ → List Packet × End
cut zero buff readable offset = ([], endless)
cut (suc fuel) buff readable offset =
    let size = packet_size (byte buff offset) (byte buff (offset + 1)) in
    let rest = cut fuel buff readable (offset + size) in
    if not (ltb offset readable)
    then ([], done offset)
    else if not (ltb (offset + 1) (length buff))
    then ([], out_of_range)
    else if ltb buff_size size
    then ([], negative offset)
    else if ltb (readable - offset) size
    then ([], waiting offset)
    else then_packets (from_slice (sub_list buff offset size)) rest

-- The buffer and what is held after the loop. In the middle of a packet its bytes are moved to the front
-- and all others are cleared.
abbrev pub after : List ℕ → ℕ → End → Reader
after buff readable (waiting offset) =
    let left = readable - offset in
    record { buff = sub_list buff offset left ++ zeros (length buff - left); held = left }
after buff readable (done offset) = record { buff = buff; held = readable - offset }
after buff readable (negative offset) = record { buff = buff; held = readable - offset }
after buff readable out_of_range = record { buff = buff; held = 0 }
after buff readable endless = record { buff = buff; held = 0 }

-- `sr.read(&mut buff[buff_offset..])`
abbrev pub written : Reader → List ℕ → List ℕ
written r chunk = take r.held r.buff ++ (chunk ++ drop (r.held + length chunk) r.buff)

-- One read and the loop over what is there. A packet has at least one byte, or the loop has no end: so
-- many rounds as bytes, and one, are enough.
unfoldable pub feed : Reader → List ℕ → (List Packet × End) × Reader
feed r chunk =
    let buff = written r chunk in
    let readable = length chunk + r.held in
    let (ps, end) = cut (suc readable) buff readable 0 in ((ps, end), after buff readable end)

-- Whether the task still reads.
abbrev pub goes_on : End → Bool
goes_on out_of_range = false
goes_on endless = false
goes_on _ = true

-- The reader of a new connection.
abbrev pub new_reader : Reader
new_reader = record { buff = zeros buff_size; held = 0 }
