-- ===== src/Incoming/Rounds.antt =====
-- The reader's loop ends (client.rs), unless it comes to a packet that claims to have no bytes.
use vangers_srv.Base.{
  ℕ, zero, suc, ◌+◌, ◌-◌, ◌%◌, ◌^◌, ◌≤◌, ◌<◌, ◌≡◌, refl, ap, ◌∙◌, arith, Bool-cases, inl, inr, ◌==◌,
  ==→eq, List, [], ◌∷◌, length, byte, from_le, sub_list, Result, ok, err, panic,
}
use vangers_srv.Protocol.{Packet, default_packet, from_slice}
use vangers_srv.Incoming.{Reader, packet_size, End, endless, then_packets, cut, written, feed}

-- The size that the two bytes at a place of the buffer claim, as the bit pattern of an `i16`.
abbrev pub claim : List ℕ → ℕ → ℕ
claim buff place = from_le (byte buff place ∷ byte buff (place + 1) ∷ []) % 2 ^ 16

-- The bytes of the packet that begins at a place, the two of its size among them.
abbrev pub extent : List ℕ → ℕ → ℕ
extent buff place = (2 + claim buff place) % 2 ^ 16

-- A packet begins at a place, is among the first bytes of the buffer as a whole, and can be read.
pub record Whole (buff : List ℕ) (readable place : ℕ) : Type 0 where
  pub there : place + 1 < length buff
  pub positive : extent buff place < 2 ^ 15
  pub inside : place < readable
  pub fits : place + extent buff place ≤ readable
  pub packet : Packet
  pub is_read : from_slice {E = End} (sub_list buff place (extent buff place)) ≡ ok packet

-- From one packet to the next the loop comes to a place.
pub data Reaches (buff : List ℕ) (readable target : ℕ) : ℕ → Type 0 where
  here : Reaches buff readable target target
  past :
      (place : ℕ)
      → Whole buff readable place
      → Reaches buff readable target (place + extent buff place)
      → Reaches buff readable target place

-- The loop comes to a packet that claims the size -2.
pub record Stuck (buff : List ℕ) (readable : ℕ) : Type 0 where
  pub place : ℕ
  pub inside : place < readable
  pub there : place + 1 < length buff
  pub claims : claim buff place ≡ 2 ^ 16 - 2
  pub reached : Reaches buff readable place 0

abbrev pub repeated : ℕ → Packet → List Packet
repeated zero p = []
repeated (suc n) p = p ∷ repeated n p

extent-packet_size :
    (buff : List ℕ) (o : ℕ) → packet_size (byte buff o) (byte buff (o + 1)) ≡ extent buff o
extent-packet_size buff o = omega arith

-- One round of the loop at a whole packet.
cut_past :
    (fuel : ℕ) (buff : List ℕ) (readable o : ℕ) (w : Whole buff readable o)
    → cut (suc fuel) buff readable o
      ≡ then_packets (ok w.packet) (cut fuel buff readable (o + extent buff o))
unfolding cut
cut_past fuel buff readable o w =
    rw (extent-packet_size buff o)
      (ground (arith, w.is_read, w.there, w.positive, w.inside, w.fits))

goes_on_from :
    (r : Result End Packet) (rest : List Packet × End)
    → (then_packets r rest).1 ≡ endless
    → (p : Packet) × (r ≡ ok p) × (rest.1 ≡ endless)
goes_on_from (ok p) rest h = (p, refl, h)
goes_on_from (err d) rest h = absurd (cc)
goes_on_from panic rest h = absurd (cc)

-- A round after which the loop goes on without end is at a whole packet.
cut_round :
    (fuel : ℕ) (buff : List ℕ) (readable o : ℕ)
    → (cut (suc fuel) buff readable o).1 ≡ endless
    → Whole buff readable o × ((cut fuel buff readable (o + extent buff o)).1 ≡ endless)
unfolding cut
cut_round fuel buff readable o e =
    let r = from_slice {E = End} (sub_list buff o (extent buff o)) in
    let rest = cut fuel buff readable (o + extent buff o) in
    let h = rw (extent-packet_size buff o) at e in
    let (there, positive, inside, fits, goes) : (o + 1 < length buff)
        × (extent buff o < 2 ^ 15)
        × (o < readable)
        × (o + extent buff o ≤ readable)
        × ((then_packets r rest).1 ≡ endless) =
      ground arith in
    let (p, is_read, later) = goes_on_from r rest goes in
    (
      record {
        there = there;
        positive = positive;
        inside = inside;
        fits = fits;
        packet = p;
        is_read = is_read;
      },
      later,
    )

-- What a loop that has no end comes to from a place.
StuckFrom : List ℕ → ℕ → ℕ → Type 0
StuckFrom buff readable o =
    (place : ℕ) × (place < readable)
    × (place + 1 < length buff)
    × (claim buff place ≡ 2 ^ 16 - 2)
    × Reaches buff readable place o

cut_stuck :
    (fuel : ℕ) (buff : List ℕ) (readable o : ℕ)
    → readable - o < fuel
    → (cut fuel buff readable o).1 ≡ endless
    → StuckFrom buff readable o
unfolding StuckFrom
cut_stuck zero buff readable o h e = absurd (omega arith)
cut_stuck (suc fuel) buff readable o h e =
    let (w, later) = cut_round fuel buff readable o e in
    elim (Bool-cases (extent buff o == 0)) [
      | inl z ↦ (o, w.inside, w.there, omega (arith, ==→eq _ 0 z), here)
      | inr z ↦
          let (place, inside, there, claims, r) =
            cut_stuck fuel buff readable (o + extent buff o) (ground (arith, w.inside, h)) later in
          (place, inside, there, claims, past o w r)
    ]

-- At a packet of no bytes each round sends a packet without contents.
cut_repeats :
    (buff : List ℕ) (readable place : ℕ)
    → place < readable
    → place + 1 < length buff
    → claim buff place ≡ 2 ^ 16 - 2
    → (fuel : ℕ) → cut fuel buff readable place ≡ (repeated fuel default_packet, endless)
unfolding cut from_slice
cut_repeats buff readable place inside there claims zero = refl
cut_repeats buff readable place inside there claims (suc fuel) =
    let nothing : extent buff place ≡ 0 = omega arith in
    let stays : place + extent buff place ≡ place = omega arith in
    let w : Whole buff readable place = record {
      there = there;
      positive = omega arith;
      inside = inside;
      fits = omega arith;
      packet = default_packet;
      is_read = rw nothing refl;
    } in
    cut_past fuel buff readable place w
    ∙ rw stays (
        ap (then_packets (ok default_packet))
          (cut_repeats buff readable place inside there claims fuel))

cut_endless :
    (buff : List ℕ) (readable place : ℕ)
    → ((fuel : ℕ) → (cut fuel buff readable place).1 ≡ endless)
    → (o : ℕ) → Reaches buff readable place o
    → (fuel : ℕ) → (cut fuel buff readable o).1 ≡ endless
unfolding cut
cut_endless buff readable place stays _ here fuel = stays fuel
cut_endless buff readable place stays _ (past o w r) zero = refl
cut_endless buff readable place stays _ (past o w r) (suc fuel) =
    ap (λ c. c.1) (cut_past fuel buff readable o w)
    ∙ cut_endless buff readable place stays (o + extent buff o) r fuel

-- The loop over what was read does not end within as many rounds as there are bytes, and one, only when,
-- going from one whole packet to the next, it comes to one that claims the size -2. When it does so,
-- it does not end within any number of rounds, and from there on each round stays at that place and
-- sends a packet without contents.
pub feed_ends :
    (r : Reader) (chunk : List ℕ)
    → (((feed r chunk).0.1 ≡ endless) → Stuck (written r chunk) (length chunk + r.held))
      × (Stuck (written r chunk) (length chunk + r.held)
          → (fuel : ℕ) → (cut fuel (written r chunk) (length chunk + r.held) 0).1 ≡ endless)
      × ((s : Stuck (written r chunk) (length chunk + r.held)) (fuel : ℕ)
          → cut fuel (written r chunk) (length chunk + r.held) s.place
            ≡ (repeated fuel default_packet, endless))
unfolding feed StuckFrom
feed_ends r chunk =
    let buff = written r chunk in
    let readable = length chunk + r.held in
    (
      λ e.
          let (place, inside, there, claims, reached) =
            cut_stuck (suc readable) buff readable 0 (omega arith) e in
          record {
            place = place;
            inside = inside;
            there = there;
            claims = claims;
            reached = reached;
          },
      λ s fuel.
          cut_endless buff readable s.place
            (λ n. ap (λ c. c.1) (cut_repeats buff readable s.place s.inside s.there s.claims n)) 0
            s.reached fuel,
      λ s fuel. cut_repeats buff readable s.place s.inside s.there s.claims fuel,
    )
