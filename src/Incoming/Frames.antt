-- ===== src/Incoming/Frames.antt =====
-- The frames of packets on the wire, and what the reader's loop makes of them (client.rs, protocol.rs).
use vangers_srv.Base.{
  ℕ, zero, suc, ◌+◌, ◌-◌, ◌≤◌, ◌<◌, ◌≡◌, refl, sym, ap, ◌∙◌, true, false, All, List, [], ◌∷◌, ◌++◌,
  arith, append_assoc, ltb, length, length-append, take, take-append, drop-append, byte, to_le,
  sub_list, lt→ltb, le→ltb, ok, ◌>>=◌,
}
use vangers_srv.Protocol.{Packet, from_slice}
use vangers_srv.Protocol.Framing.{IsPacket, as_bytes_packet, from_slice-as_bytes}
use vangers_srv.Incoming.{buff_size, packet_size, End, done, waiting, then_packets, cut}

-- `as_bytes` of a packet whose size fits.
abbrev pub frame : Packet → List ℕ
frame p = to_le 2 p.event_size ++ (p.real_action ∷ p.bytes)

abbrev pub frames : List Packet → List ℕ
frames [] = []
frames (p ∷ ps) = frame p ++ frames ps

-- A packet that is read back as it is, and whose frame fits the buffer.
pub record IsFramed (p : Packet) : Type 0 where
  pub packet : IsPacket p
  pub fits : length p.bytes + 3 ≤ buff_size

-- What is left in the middle of a packet: less than the packet, and at least its two bytes of size.
pub record IsStub (rest : List ℕ) : Type 0 where
  pub started : 2 ≤ length rest
  pub short : length rest < packet_size (byte rest 0) (byte rest 1)
  pub fits : packet_size (byte rest 0) (byte rest 1) ≤ buff_size

pub length-frame : (p : Packet) → length (frame p) ≡ length p.bytes + 3
length-frame p = omega arith

pub frame_size :
    (p : Packet) → IsFramed p → packet_size (byte (frame p) 0) (byte (frame p) 1) ≡ length (frame p)
frame_size p h = omega (arith, h.packet.sized, h.fits)

from_slice-frame : {E : Type 0} (p : Packet) → IsPacket p → from_slice {E = E} (frame p) ≡ ok p
from_slice-frame {E} p h =
    ap (λ r. r >>= from_slice) (sym (as_bytes_packet {E = E} p h)) ∙ from_slice-as_bytes {E = E} p h

pub byte-append : (xs ys : List ℕ) (i : ℕ) → byte (xs ++ ys) (length xs + i) ≡ byte ys i
byte-append [] ys i = ap (byte ys) (omega arith)
byte-append (x ∷ xs) ys i = ap (byte (x ∷ (xs ++ ys))) (add_suc (length xs) i) ∙ byte-append xs ys i
  where
    add_suc : (m i : ℕ) → suc m + i ≡ suc (m + i)
    add_suc m i = omega arith

pub byte-append_left : (xs ys : List ℕ) (i : ℕ) → i < length xs → byte (xs ++ ys) i ≡ byte xs i
byte-append_left [] ys i h = absurd (omega arith)
byte-append_left (x ∷ xs) ys zero h = refl
byte-append_left (x ∷ xs) ys (suc i) h = byte-append_left xs ys i (omega arith)

byte-at : (pre ys : List ℕ) (i : ℕ) → byte (pre ++ ys) (length pre + i) ≡ byte ys i
byte-at pre ys i = byte-append pre ys i

-- One round of the loop at a whole packet.
cut_packet :
    (fuel readable : ℕ) (p : Packet) (pre tail : List ℕ)
    → IsFramed p
    → length pre + length (frame p) ≤ readable
    → cut (suc fuel) (pre ++ (frame p ++ tail)) readable (length pre)
      ≡ then_packets
          (ok p)
          (cut fuel (pre ++ (frame p ++ tail)) readable (length pre + length (frame p)))
unfolding cut
cut_packet fuel readable p pre tail h fits =
    rw (first, second, frame_size p h, t1, t2, t3, t4, here, from_slice-frame p h.packet) refl
  where
    buff : List ℕ
    buff = pre ++ (frame p ++ tail)

    first : byte (pre ++ (frame p ++ tail)) (length pre) ≡ byte (frame p) 0
    first = ap (byte (pre ++ (frame p ++ tail))) (omega arith) ∙ byte-append pre (frame p ++ tail) 0

    second : byte (pre ++ (frame p ++ tail)) (length pre + 1) ≡ byte (frame p) 1
    second = byte-append pre (frame p ++ tail) 1

    t1 : ltb (length pre) readable ≡ true
    t1 = lt→ltb (length pre) readable (omega arith)

    t2 : ltb (length pre + 1) (length (pre ++ (frame p ++ tail))) ≡ true
    t2 =
        lt→ltb _ _
          (omega (arith, length-append pre (frame p ++ tail), length-append (frame p) tail))

    t3 : ltb buff_size (length (frame p)) ≡ false
    t3 = le→ltb buff_size (length (frame p)) (omega (arith, h.fits))

    t4 : ltb (readable - length pre) (length (frame p)) ≡ false
    t4 = le→ltb (readable - length pre) (length (frame p)) (omega arith)

    here : sub_list (pre ++ (frame p ++ tail)) (length pre) (length (frame p)) ≡ frame p
    here =
        ap (take (length (frame p))) (drop-append pre (frame p ++ tail))
        ∙ take-append (frame p) tail

pub cut_done :
    (fuel : ℕ) (buff : List ℕ) (readable : ℕ)
    → cut (suc fuel) buff readable readable ≡ ([], done readable)
unfolding cut
cut_done fuel buff readable = rw (le→ltb readable readable (omega arith)) refl

pub cut_waiting :
    (fuel : ℕ) (pre rest junk : List ℕ)
    → IsStub rest
    → cut (suc fuel) (pre ++ (rest ++ junk)) (length pre + length rest) (length pre)
      ≡ ([], waiting (length pre))
unfolding cut
cut_waiting fuel pre rest junk h = rw (first, second, t1, t2, t3, t4) refl
  where
    first : byte (pre ++ (rest ++ junk)) (length pre) ≡ byte rest 0
    first =
        ap (byte (pre ++ (rest ++ junk))) (omega arith)
        ∙ byte-append pre (rest ++ junk) 0
        ∙ byte-append_left rest junk 0 (omega (arith, h.started))

    second : byte (pre ++ (rest ++ junk)) (length pre + 1) ≡ byte rest 1
    second =
        byte-append pre (rest ++ junk) 1 ∙ byte-append_left rest junk 1 (omega (arith, h.started))

    t1 : ltb (length pre) (length pre + length rest) ≡ true
    t1 = lt→ltb _ _ (omega (arith, h.started))

    t2 : ltb (length pre + 1) (length (pre ++ (rest ++ junk))) ≡ true
    t2 =
        lt→ltb _ _
          (omega (arith, h.started, length-append pre (rest ++ junk), length-append rest junk))

    t3 : ltb buff_size (packet_size (byte rest 0) (byte rest 1)) ≡ false
    t3 = le→ltb buff_size _ h.fits

    t4 :
        ltb (length pre + length rest - length pre) (packet_size (byte rest 0) (byte rest 1)) ≡ true
    t4 = lt→ltb _ _ (omega (arith, h.short))

-- The loop over whole packets and what follows them.
module _ (rest junk : List ℕ) (end : ℕ → End)
    (ends : (fuel : ℕ) (pre : List ℕ)
      → cut (suc fuel) (pre ++ (rest ++ junk)) (length pre + length rest) (length pre)
        ≡ ([], end (length pre))) where
  pub cut-frames :
      (fuel : ℕ) (ps : List Packet) (pre : List ℕ)
      → All IsFramed ps
      → length ps ≤ fuel
      → cut
          (suc fuel)
          (pre ++ (frames ps ++ (rest ++ junk)))
          (length pre + (length (frames ps) + length rest))
          (length pre)
        ≡ (ps, end (length pre + length (frames ps)))
  cut-frames fuel [] pre h enough =
      ap (λ n. cut (suc fuel) (pre ++ (rest ++ junk)) n (length pre)) (omega arith)
      ∙ ends fuel pre
      ∙ ap (λ n. ([], end n)) (omega arith)
  cut-frames zero (p ∷ ps) pre h enough = absurd (omega arith)
  cut-frames (suc fuel) (p ∷ ps) pre h enough =
      ap (λ b. cut (suc (suc fuel)) b readable (length pre)) left
      ∙ cut_packet (suc fuel) readable p pre (frames ps ++ (rest ++ junk)) h.0
          (omega (arith, length-append (frame p) (frames ps)))
      ∙ ap (then_packets (ok p)) (
          ap (λ b. cut (suc fuel) b readable (length pre + length (frame p)))
            (sym (append_assoc pre (frame p) (frames ps ++ (rest ++ junk))))
          ∙ ap
              (λ n.
                cut (suc fuel) ((pre ++ frame p) ++ (frames ps ++ (rest ++ junk))) n
                  (length pre + length (frame p)))
              (omega (arith, longer, length-append (frame p) (frames ps)))
          ∙ ap
              (λ n.
                cut (suc fuel) ((pre ++ frame p) ++ (frames ps ++ (rest ++ junk)))
                  (length (pre ++ frame p) + (length (frames ps) + length rest)) n)
              (sym longer)
          ∙ cut-frames fuel ps (pre ++ frame p) h.1 (omega arith))
      ∙ ap (λ n. (p ∷ ps, end n)) (omega (arith, longer, length-append (frame p) (frames ps)))
    where
      readable : ℕ
      readable = length pre + (length (frame p ++ frames ps) + length rest)

      longer : length (pre ++ frame p) ≡ length pre + length (frame p)
      longer = length-append pre (frame p)

      left :
          pre ++ ((frame p ++ frames ps) ++ (rest ++ junk))
          ≡ pre ++ (frame p ++ (frames ps ++ (rest ++ junk)))
      left = ap (λ t. pre ++ t) (append_assoc (frame p) (frames ps) (rest ++ junk))
