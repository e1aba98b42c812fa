-- ===== src/Protocol/Framing.antt =====
-- Round trips between packets and the bytes on the wire (protocol.rs).
use vangers_srv.Base.{
  ℕ, ◌+◌, inl, inr, Bool-cases, ◌>>=◌, ◌^◌, ◌<◌, ◌≡◌, refl, Option, none, some, List, [], ◌∷◌, ◌++◌,
  arith, ap, lt→ltb, length, to_le, from_le, ok, IsByte, IsBytes,
}
use vangers_srv.Protocol.Actions.{Action, to_u8, from_u8, is_unknown, from_u8-to_u8, to_u8-from_u8}
use vangers_srv.Protocol.{
  Packet, packet_of, as_bytes, new, from_slice, action_of, action_byte, or_unknown, try_i16,
}

to_u8_byte : (a : Action) → to_u8 a < 256
unfolding to_u8
to_u8_byte Action.unknown = omega arith
to_u8_byte _ = omega arith

-- A packet whose type, size and bytes are what its real type and its data say.
pub record IsPacket (p : Packet) : Type 0 where
  pub typed : action_of p.real_action ≡ p.action
  pub sized : p.event_size ≡ length p.bytes + 1
  pub fits : length p.bytes + 1 < 2 ^ 15
  pub code : IsByte p.real_action
  pub body : IsBytes p.bytes

action_byte-or_unknown :
    (o : Option Action) (code : ℕ)
    → ((a : Action) → o ≡ some a → to_u8 a ≡ code)
    → action_byte (or_unknown o) code ≡ code
unfolding action_byte
action_byte-or_unknown none code h = refl
action_byte-or_unknown (some a) code h = elim (Bool-cases (is_unknown a)) [
  | inl e ↦ rw e
  | inr e ↦ rw e (h a refl)
]

-- The byte that `as_bytes` writes for the type is the byte that was read, known or not.
action_byte-action_of : (code : ℕ) → action_byte (action_of code) code ≡ code
action_byte-action_of code =
    unfold action_of in action_byte-or_unknown (from_u8 code) code (to_u8-from_u8 code)

try_i16_fits : (n : ℕ) → n < 2 ^ 15 → try_i16 n ≡ some n
unfolding try_i16
try_i16_fits n h = ground arith

module _ {E : Type 0} where
  pub as_bytes_packet :
      (p : Packet)
      → IsPacket p
      → as_bytes {E = E} p ≡ ok (to_le 2 p.event_size ++ (p.real_action ∷ p.bytes))
  unfolding as_bytes
  as_bytes_packet p h =
      rw (try_i16_fits (1 + length p.bytes) (omega (arith, h.fits)), ← h.typed)
        (rw (action_byte-action_of p.real_action)
          (ap (λ n. ok (to_le 2 n ++ (p.real_action ∷ p.bytes))) (omega (arith, h.sized))))

  -- A packet whose type, size and bytes agree, and whose size fits, is read back as it was when it
  -- is written to the wire.
  pub from_slice-as_bytes : (p : Packet) → IsPacket p → (as_bytes {E = E} p >>= from_slice) ≡ ok p
  unfolding from_slice
  from_slice-as_bytes p h = rw (as_bytes_packet p h) (ground (arith, h.fits, h.sized, h.typed))

  -- `new` returns the packet of its data exactly when the size fits an `i16`, and panics otherwise.
  pub new_fits :
      (a : Action) (bytes : List ℕ)
      → length bytes + 1 < 2 ^ 15
      → new {E = E} a bytes ≡ ok (packet_of a bytes)
  unfolding new
  new_fits a bytes h = rw (try_i16_fits (length bytes + 1) h)

  pub new_inv :
      (a : Action) (bytes : List ℕ) {p : Packet}
      → new {E = E} a bytes ≡ ok p
      → (length bytes + 1 < 2 ^ 15) × (p ≡ packet_of a bytes)
  unfolding new
  new_inv a bytes {p} e = ground arith

  -- A frame of at least three bytes with a size that is not negative, and with data whose length
  -- fits, is written again with the same type byte, also one that names no action, the same data,
  -- and the real size.
  pub as_bytes-from_slice :
      (b0 b1 code : ℕ) (bytes : List ℕ)
      → from_le (b0 ∷ b1 ∷ []) < 2 ^ 15
      → length bytes + 1 < 2 ^ 15
      → (from_slice {E = E} (b0 ∷ b1 ∷ code ∷ bytes) >>= as_bytes)
        ≡ ok (to_le 2 (length bytes + 1) ++ (code ∷ bytes))
  unfolding from_slice as_bytes
  as_bytes-from_slice b0 b1 code bytes h fits = rw (lt→ltb _ _ h) (
      rw (try_i16_fits (1 + length bytes) (omega arith)) (
        rw (action_byte-action_of code) (ap (λ n. ok (to_le 2 n ++ (code ∷ bytes))) (omega arith))))

pub packet_of-IsPacket :
    (a : Action) (bytes : List ℕ)
    → IsBytes bytes
    → length bytes + 1 < 2 ^ 15
    → IsPacket (packet_of a bytes)
unfolding packet_of
packet_of-IsPacket a bytes h fits = record {
  typed = unfold action_of in rw (from_u8-to_u8 a);
  sized = refl;
  fits = fits;
  code = to_u8_byte a;
  body = h;
}
