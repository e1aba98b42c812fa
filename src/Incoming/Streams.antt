-- ===== src/Incoming/Streams.antt =====
-- Where the reads of a stream of packets end (client.rs): a stream that is cut at any byte is some whole
-- packets and the beginning of the next.
use vangers_srv.Base.{
  ℕ, ◌+◌, ◌-◌, ◌≤◌, ◌<◌, ◌≡◌, ◌≢◌, refl, sym, ap, ◌∙◌, subst, ◌⊎◌, inl, inr, List, [], ◌∷◌, ◌++◌,
  arith, append_assoc, ltb, ltb→lt, ltb→le, Bool-cases, if◌then◌else◌, length, length-append, drop,
  byte, All,
}
use vangers_srv.Protocol.{Packet}
use vangers_srv.Incoming.{buff_size, packet_size}
use vangers_srv.Incoming.Frames.{
  frame, frames, IsFramed, IsStub, length-frame, frame_size, byte-append_left,
}

-- How many bytes into a packet the position `n` of the stream is.
unfoldable pub into : ℕ → List Packet → ℕ
into n [] = n
into n (p ∷ ps) =
    let rest = into (n - length (frame p)) ps in if ltb n (length (frame p)) then n else rest

abbrev pub concat : List (List ℕ) → List ℕ
concat [] = []
concat (c ∷ cs) = c ++ concat cs

-- The reads of a stream, of which `n` bytes have come: each has at most the bytes for which there is
-- room, and none ends one byte into a packet.
abbrev pub Reads : ℕ → List (List ℕ) → List Packet → Type 0
Reads n [] ps = Unit
Reads n (c ∷ cs) ps =
    (length c + into n ps ≤ buff_size) × (into (n + length c) ps ≢ 1) × Reads (n + length c) cs ps

append_split :
    (xs ys zs ws : List ℕ)
    → xs ++ ys ≡ zs ++ ws
    → length zs ≤ length xs
    → (xs ≡ zs ++ drop (length zs) xs) × (drop (length zs) xs ++ ys ≡ ws)
append_split xs ys [] ws e h = (refl, e)
append_split [] ys (z ∷ zs) ws e h = absurd (omega arith)
append_split (x ∷ xs) ys (z ∷ zs) ws e h =
    let (left, right) = append_split xs ys zs ws (cc) (omega arith) in
    let heads : x ≡ z = cc in
    (ap (λ t. x ∷ t) left ∙ ap (λ a. a ∷ (zs ++ drop (length zs) xs)) heads, right)

-- The stream, cut: whole packets, the rest, and the packets that are still to come.
pub record Split (bytes more : List ℕ) (ps : List Packet) : Type 0 where
  pub passed : List Packet
  pub coming : List Packet
  pub rest : List ℕ
  pub packets : ps ≡ passed ++ coming
  pub splits : bytes ≡ frames passed ++ rest
  pub joins : rest ++ more ≡ frames coming
  pub inside :
      (rest ≡ [])
      ⊎ ((p : Packet) × (qs : List Packet) × (coming ≡ p ∷ qs) × (length rest < length (frame p)))

pub split_frames :
    (ps : List Packet) (bytes more : List ℕ) → bytes ++ more ≡ frames ps → Split bytes more ps
split_frames [] [] more e = record {
  passed = [];
  coming = [];
  rest = [];
  packets = refl;
  splits = refl;
  joins = e;
  inside = inl refl;
}
split_frames [] (b ∷ bs) more e = absurd (cc)
split_frames (p ∷ ps) bytes more e = elim (Bool-cases (ltb (length bytes) (length (frame p)))) [
  | inl t ↦ record {
    passed = [];
    coming = p ∷ ps;
    rest = bytes;
    packets = refl;
    splits = refl;
    joins = e;
    inside = inr (p, ps, refl, ltb→lt _ _ t);
  }
  | inr t ↦
      let (left, right) = append_split bytes more (frame p) (frames ps) e (ltb→le _ _ t) in
      let s = split_frames ps (drop (length (frame p)) bytes) more right in
      record {
        passed = p ∷ s.passed;
        coming = s.coming;
        rest = s.rest;
        packets = ap (λ t. p ∷ t) s.packets;
        splits =
            left
            ∙ ap (λ t. frame p ++ t) s.splits
            ∙ sym (append_assoc (frame p) (frames s.passed) s.rest);
        joins = s.joins;
        inside = s.inside;
      }
]

-- Positions behind whole packets.
pub into_shift :
    (qs rs : List Packet) (m : ℕ) → into (length (frames qs) + m) (qs ++ rs) ≡ into m rs
unfolding into
into_shift [] rs m = ap (λ n. into n rs) (omega arith)
into_shift (q ∷ qs) rs m =
    elim (Bool-cases (ltb (length (frame q ++ frames qs) + m) (length (frame q)))) [
      | inl t ↦ absurd (omega (arith, ltb→lt _ _ t, length-append (frame q) (frames qs)))
      | inr t ↦ rw t (
          ap (λ n. into n (qs ++ rs)) (omega (arith, length-append (frame q) (frames qs)))
          ∙ into_shift qs rs m)
    ]

pub Reads_shift :
    (cs : List (List ℕ)) (qs rs : List Packet) (m : ℕ)
    → Reads (length (frames qs) + m) cs (qs ++ rs)
    → Reads m cs rs
Reads_shift [] qs rs m h = tt
Reads_shift (c ∷ cs) qs rs m h = (
  subst (λ n. length c + n ≤ buff_size) (into_shift qs rs m) h.0,
  subst (λ n. n ≢ 1) (ap (λ n. into n (qs ++ rs)) (omega arith) ∙ into_shift qs rs (m + length c))
      h.1,
  Reads_shift cs qs rs (m + length c) (subst (λ n. Reads n cs (qs ++ rs)) (omega arith) h.2),
)

-- Inside a packet, the position is what is left.
pub into_inside :
    (p : Packet) (qs : List Packet) (n : ℕ) → n < length (frame p) → into n (p ∷ qs) ≡ n
unfolding into
into_inside p qs n h = ground arith

pub into_zero : (ps : List Packet) → All IsFramed ps → into 0 ps ≡ 0
unfolding into
into_zero [] h = refl
into_zero (p ∷ ps) h = ground (arith, length-frame p)

-- The beginning of a packet, of at least two bytes.
pub IsStub-of_prefix :
    (p : Packet) (rest more : List ℕ) (qs : List Packet)
    → IsFramed p
    → rest ++ more ≡ frames (p ∷ qs)
    → 2 ≤ length rest
    → length rest < length (frame p)
    → IsStub rest
IsStub-of_prefix p rest more qs h e two short =
    let same : (i : ℕ) → i < length rest → i < length (frame p) → byte rest i ≡ byte (frame p) i =
      λ i a b.
        sym (byte-append_left rest more i a)
        ∙ ap (λ t. byte t i) e
        ∙ byte-append_left (frame p) (frames qs) i b in
    let sized : packet_size (byte rest 0) (byte rest 1) ≡ length (frame p) =
      ap (λ b. packet_size b (byte rest 1)) (same 0 (omega arith) (omega arith))
      ∙ ap (packet_size (byte (frame p) 0)) (same 1 (omega arith) (omega arith))
      ∙ frame_size p h in
    record {
      started = two;
      short = omega (arith, sized);
      fits = omega (arith, sized, length-frame p, h.fits);
    }

into-le : (n : ℕ) (ps : List Packet) → into n ps ≤ n
unfolding into
into-le n [] = omega arith
into-le n (p ∷ ps) = ground (arith, into-le (n - length (frame p)) ps)

-- At the end of the stream no packet is left.
pub nothing_left : (ps : List Packet) → into (length (frames ps)) ps ≡ length (frames ps) → ps ≡ []
unfolding into
nothing_left [] e = refl
nothing_left (p ∷ ps) e = absurd (
    ground (
      arith,
      length-frame p,
      length-append (frame p) (frames ps),
      into-le (length (frame p ++ frames ps) - length (frame p)) ps,
    ))

pub All-right : (qs rs : List Packet) → All IsFramed (qs ++ rs) → All IsFramed rs
All-right [] rs h = h
All-right (q ∷ qs) rs h = All-right qs rs h.1

pub All-left : (qs rs : List Packet) → All IsFramed (qs ++ rs) → All IsFramed qs
All-left [] rs h = tt
All-left (q ∷ qs) rs h = (h.0, All-left qs rs h.1)
