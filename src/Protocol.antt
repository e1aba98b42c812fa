-- ===== src/Protocol.antt =====
-- Packets, vangers-srv/src/protocol.rs. `event_size` is the bit pattern of an `i16`; a size that does
-- not fit an `i16` makes `unwrap` panic.
pub mod Actions
pub mod Framing
use vangers_srv.Base.{
  ℕ, ◌+◌, ◌^◌, ◌≡◌, Bool, true, false, Option, none, some, List, [], ◌∷◌, ◌++◌, ◌==◌, ltb, leb,
  if◌then◌else◌, length, drop, take, to_le, from_le, Result, ok, err, panic, ◌>>=◌, ok_or, unwrap,
}
use Actions.{Action, to_u8, from_u8, is_unknown, request_to_response}

pub record Packet : Type 0 where
  pub event_size : ℕ
  pub action : Action
  pub real_action : ℕ
  pub bytes : List ℕ

-- `i16::try_from(len)`
unfoldable pub try_i16 : ℕ → Option ℕ
try_i16 n = if ltb n (2 ^ 15) then some n else none

-- The type byte of `as_bytes`.
pub action_byte : Action → ℕ → ℕ
unfolding to_u8 is_unknown
action_byte a real = if is_unknown a then real else to_u8 a

-- `Packet::as_bytes`
unfoldable pub as_bytes : {E : Type 0} → Packet → Result E (List ℕ)
unfolding action_byte try_i16
as_bytes p = do
  event_size ← unwrap (try_i16 (1 + length p.bytes))
  ok (to_le 2 event_size ++ (action_byte p.action p.real_action ∷ p.bytes))

-- The packet of an action and its data, when the size fits.
unfoldable pub packet_of : Action → List ℕ → Packet
unfolding to_u8
packet_of a bytes = record {
  event_size = length bytes + 1;
  action = a;
  real_action = to_u8 a;
  bytes = bytes;
}

-- `Packet::new`
unfoldable pub new : {E : Type 0} → Action → List ℕ → Result E Packet
unfolding packet_of try_i16
new a bytes = do
  event_size ← unwrap (try_i16 (length bytes + 1))
  ok (record (packet_of a bytes) { event_size = event_size })

-- `Packet::create_answer`
unfoldable pub create_answer : Packet → List ℕ → Option Packet
unfolding packet_of try_i16 request_to_response
create_answer p bytes = elim (request_to_response p.action) [
  | none ↦ none
  | some a ↦ elim (try_i16 (length bytes + 1)) [
    | none ↦ none
    | some size ↦ some (record (packet_of a bytes) { event_size = size })
  ]
]

abbrev pub default_packet : Packet
default_packet = record { event_size = 1; action = Action.unknown; real_action = 0; bytes = [] }

-- `Action::from_u8(code).unwrap_or(Action::UNKNOWN)`
abbrev pub or_unknown : Option Action → Action
or_unknown none = Action.unknown
or_unknown (some a) = a

pub action_of : ℕ → Action
unfolding from_u8
action_of code = or_unknown (from_u8 code)

-- `Packet::from_slice`. `usize::try_from(event_size).unwrap()` panics on a negative size; a size that
-- differs from the real length is only logged.
unfoldable pub from_slice : {E : Type 0} → List ℕ → Result E Packet
unfolding action_of
from_slice (b0 ∷ b1 ∷ code ∷ bytes) =
    let event_size = from_le (b0 ∷ b1 ∷ []) in
    if ltb event_size (2 ^ 15)
    then ok (record {
      event_size = event_size;
      action = action_of code;
      real_action = code;
      bytes = bytes;
    })
    else panic
from_slice _ = ok default_packet
