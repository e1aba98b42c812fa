-- ===== src/Incoming/Reading.antt =====
-- Packets that come in pieces (client.rs): what one read sends to the server, and what the reader holds.
use vangers_srv.Base.{
  ℕ, zero, suc, ◌+◌, ◌-◌, ◌≤◌, ◌≡◌, refl, sym, ap, ap₂, ◌∙◌, ◌⊎◌, inl, inr, true, List, [], ◌∷◌,
  ◌++◌, arith, append_assoc, length, length-append, length-drop, take, drop, take-append,
  drop-append, sub_list, All,
}
use vangers_srv.Protocol.{Packet}
use vangers_srv.Incoming.{
  Reader, buff_size, zeros, End, done, waiting, cut, written, feed, goes_on, new_reader,
}
use vangers_srv.Incoming.Frames.{
  frame, frames, IsFramed, IsStub, length-frame, cut_done, cut_waiting, cut-frames,
}

-- The reader holds the bytes that are left of the last read.
pub record Holds (r : Reader) (pending : List ℕ) : Type 0 where
  pub junk : List ℕ
  pub starts : r.buff ≡ pending ++ junk
  pub counted : r.held ≡ length pending
  pub sized : length r.buff ≡ buff_size

length-zeros : (n : ℕ) → length (zeros n) ≡ n
length-zeros zero = refl
length-zeros (suc n) = ap suc (length-zeros n)

frames-length : (ps : List Packet) → length ps ≤ length (frames ps)
frames-length [] = omega arith
frames-length (p ∷ ps) =
    omega (arith, frames-length ps, length-append (frame p) (frames ps), length-frame p)

-- The buffer after a read.
written_lem :
    (r : Reader) (pending chunk : List ℕ) (h : Holds r pending)
    → written r chunk ≡ (pending ++ chunk) ++ drop (length pending + length chunk) r.buff
written_lem r pending chunk h =
    ap₂ (λ n b. take n b ++ (chunk ++ drop (n + length chunk) r.buff)) h.counted h.starts
    ∙ ap (λ t. t ++ (chunk ++ drop (length pending + length chunk) r.buff))
        (take-append pending h.junk)
    ∙ sym (append_assoc pending chunk (drop (length pending + length chunk) r.buff))

length-written :
    (r : Reader) (pending chunk : List ℕ)
    → Holds r pending
    → length pending + length chunk ≤ buff_size
    → length (written r chunk) ≡ buff_size
length-written r pending chunk h fits =
    ap length (written_lem r pending chunk h)
    ∙ omega (
      arith,
      length-append (pending ++ chunk) (drop (length pending + length chunk) r.buff),
      length-append pending chunk,
      length-drop (length pending + length chunk) r.buff (omega (arith, h.sized)),
      h.sized,
    )

-- What one read comes to, when what is there then is some whole packets and a rest.
module _ (r : Reader) (pending chunk rest : List ℕ) (ps : List Packet) (h : Holds r pending)
    (framed : All IsFramed ps) (split : pending ++ chunk ≡ frames ps ++ rest)
    (fits : length pending + length chunk ≤ buff_size) where
  abbrev junk : List ℕ
  junk = drop (length pending + length chunk) r.buff

  layout : written r chunk ≡ frames ps ++ (rest ++ drop (length pending + length chunk) r.buff)
  layout =
      written_lem r pending chunk h
      ∙ ap (λ t. t ++ drop (length pending + length chunk) r.buff) split
      ∙ append_assoc (frames ps) rest (drop (length pending + length chunk) r.buff)

  total : length chunk + r.held ≡ length (frames ps) + length rest
  total = omega (
    arith,
    h.counted,
    ap length split,
    length-append pending chunk,
    length-append (frames ps) rest,
  )

  enough : length ps ≤ length chunk + r.held
  enough = omega (arith, total, frames-length ps)

  cut_read :
      (end : ℕ → End)
      → ((fuel : ℕ) (pre : List ℕ)
          → cut
              (suc fuel)
              (pre ++ (rest ++ drop (length pending + length chunk) r.buff))
              (length pre + length rest)
              (length pre)
            ≡ ([], end (length pre)))
      → cut (suc (length chunk + r.held)) (written r chunk) (length chunk + r.held) 0
        ≡ (ps, end (length (frames ps)))
  cut_read end ends =
      ap₂ (λ b n. cut (suc (length chunk + r.held)) b n 0) layout (total ∙ omega arith)
      ∙ cut-frames rest (drop (length pending + length chunk) r.buff) end ends
          (length chunk + r.held) ps [] framed enough
      ∙ ap (λ n. (ps, end n)) (omega arith)

  feed_stub :
      IsStub rest
      → ((feed r chunk).0 ≡ (ps, waiting (length (frames ps)))) × Holds (feed r chunk).1 rest
  unfolding feed
  feed_stub stub =
      let cuts = cut_read waiting (λ fuel pre. cut_waiting fuel pre rest _ stub) in
      rw cuts (
        refl,
        record {
          junk = zeros (length (written r chunk) - (length chunk + r.held - length (frames ps)));
          starts =
              ap
                (λ t.
                  t
                  ++ zeros
                      (length (written r chunk) - (length chunk + r.held - length (frames ps))))
                kept;
          counted = omega (arith, total);
          sized = omega (
            arith,
            length-append
                (sub_list (written r chunk) (length (frames ps))
                  (length chunk + r.held - length (frames ps)))
                (zeros (length (written r chunk) - (length chunk + r.held - length (frames ps)))),
            length-zeros (length (written r chunk) - (length chunk + r.held - length (frames ps))),
            ap length kept,
            length-written r pending chunk h fits,
            total,
            h.counted,
          );
        },
      )
    where
      kept :
          sub_list
            (written r chunk)
            (length (frames ps))
            (length chunk + r.held - length (frames ps))
          ≡ rest
      kept =
          ap₂ (λ b n. take n (drop (length (frames ps)) b)) layout (omega (arith, total))
          ∙ ap (take (length rest)) (drop-append (frames ps) (rest ++ junk))
          ∙ take-append rest junk

  feed_done :
      rest ≡ [] → ((feed r chunk).0 ≡ (ps, done (length (frames ps)))) × Holds (feed r chunk).1 rest
  unfolding feed
  feed_done e =
      let cuts = cut_read done (λ fuel pre.
        ap (λ t. cut (suc fuel) (pre ++ (t ++ junk)) (length pre + length t) (length pre)) e
        ∙ ap (λ n. cut (suc fuel) (pre ++ junk) n (length pre)) (omega arith)
        ∙ cut_done fuel (pre ++ junk) (length pre)) in
      rw cuts (
        refl,
        record {
          junk = written r chunk;
          starts = ap (λ t. t ++ written r chunk) (sym e);
          counted = omega (arith, total);
          sized = length-written r pending chunk h fits;
        },
      )

abbrev pub Reading : Reader → List ℕ → List ℕ → List Packet → Type 0
Reading r chunk rest ps =
    (e : End) × ((feed r chunk).0 ≡ (ps, e)) × (goes_on e ≡ true) × Holds (feed r chunk).1 rest

-- One read sends the packets that it completes, and the reader holds the rest.
pub feed_read :
    (r : Reader) (pending chunk rest : List ℕ) (ps : List Packet)
    → Holds r pending
    → All IsFramed ps
    → pending ++ chunk ≡ frames ps ++ rest
    → length pending + length chunk ≤ buff_size
    → (rest ≡ []) ⊎ IsStub rest
    → Reading r chunk rest ps
feed_read r pending chunk rest ps h framed split fits (inl e) =
    let (fed, holds) = feed_done r pending chunk rest ps h framed split fits e in
    (done (length (frames ps)), fed, refl, holds)
feed_read r pending chunk rest ps h framed split fits (inr stub) =
    let (fed, holds) = feed_stub r pending chunk rest ps h framed split fits stub in
    (waiting (length (frames ps)), fed, refl, holds)

pub new_reader-Holds : Holds new_reader []
new_reader-Holds = record {
  junk = zeros buff_size;
  starts = refl;
  counted = refl;
  sized = length-zeros buff_size;
}
