-- ===== src/Incoming/Reads.antt =====
-- What one read brings (client.rs): the packets that it completes, and a rest that may stay in the buffer.
use vangers_srv.Base.{
  ℕ, ◌+◌, ◌≡◌, ◌≢◌, refl, sym, ap, ◌∙◌, subst, ◌⊎◌, inl, inr, List, [], ◌∷◌, ◌++◌, arith,
  append_assoc, ltb, ltb→lt, ltb→le, Bool-cases, length, length-append, All,
}
use vangers_srv.Protocol.{Packet}
use vangers_srv.Incoming.Frames.{frames, IsFramed, IsStub}
use vangers_srv.Incoming.Streams.{
  into, into_zero, into_shift, into_inside, concat, Reads, Reads_shift, Split, split_frames,
  IsStub-of_prefix, All-left, All-right,
}

-- What a read brings, cut into whole packets and a rest that may stand in the buffer.
module _ (ps : List Packet) (pending chunk : List ℕ) (chunks : List (List ℕ))
    (framed : All IsFramed ps) (stream : pending ++ (chunk ++ concat chunks) ≡ frames ps)
    (reads : Reads (length pending) (chunk ∷ chunks) ps) where
  pub record Next : Type 0 where
    pub passed : List Packet
    pub coming : List Packet
    pub rest : List ℕ
    pub packets : ps ≡ passed ++ coming
    pub splits : pending ++ chunk ≡ frames passed ++ rest
    pub joins : rest ++ concat chunks ≡ frames coming
    pub behind : All IsFramed passed
    pub ahead : All IsFramed coming
    pub inside : into (length rest) coming ≡ length rest
    pub kept : (rest ≡ []) ⊎ IsStub rest
    pub later : Reads (length rest) chunks coming

  split : Split (pending ++ chunk) (concat chunks) ps
  split =
      split_frames ps (pending ++ chunk) (concat chunks)
        (append_assoc pending chunk (concat chunks) ∙ stream)

  ahead-IsFramed : All IsFramed split.coming
  ahead-IsFramed = All-right split.passed split.coming (subst (All IsFramed) split.packets framed)

  position : length pending + length chunk ≡ length (frames split.passed) + length split.rest
  position = omega (
    arith,
    ap length split.splits,
    length-append pending chunk,
    length-append (frames split.passed) split.rest,
  )

  inside_rest : into (length split.rest) split.coming ≡ length split.rest
  inside_rest = elim split.inside [
    | inl e ↦
        ap (λ t. into (length t) split.coming) e
        ∙ into_zero split.coming ahead-IsFramed
        ∙ ap length (sym e)
    | inr (p, qs, e, short) ↦
        ap (into (length split.rest)) e ∙ into_inside p qs (length split.rest) short
  ]

  later_reads :
      Reads (length (frames split.passed) + length split.rest) chunks (split.passed ++ split.coming)
  later_reads =
      subst (λ n. Reads n chunks (split.passed ++ split.coming)) position
        (subst (Reads (length pending + length chunk) chunks) split.packets reads.2)

  not_one : length split.rest ≢ 1
  not_one e = reads.1 (
      ap (λ n. into n ps) position
      ∙ ap (into (length (frames split.passed) + length split.rest)) split.packets
      ∙ into_shift split.passed split.coming (length split.rest)
      ∙ inside_rest
      ∙ e)

  kept_rest : (split.rest ≡ []) ⊎ IsStub split.rest
  kept_rest = elim split.inside [
    | inl e ↦ inl e
    | inr (p, qs, e, short) ↦ elim (Bool-cases (ltb (length split.rest) 2)) [
      | inl t ↦ inl (empty split.rest (omega (arith, not_one, ltb→lt _ _ t)))
      | inr t ↦ inr (
          IsStub-of_prefix p split.rest (concat chunks) qs (subst (All IsFramed) e ahead-IsFramed).0
            (split.joins ∙ ap frames e) (ltb→le _ _ t) short)
    ]
  ]
    where
      empty : (xs : List ℕ) → length xs ≡ 0 → xs ≡ []
      empty [] e = refl
      empty (x ∷ xs) e = absurd (omega arith)

  pub next : Next
  next = record {
    passed = split.passed;
    coming = split.coming;
    rest = split.rest;
    packets = split.packets;
    splits = split.splits;
    joins = split.joins;
    behind = All-left split.passed split.coming (subst (All IsFramed) split.packets framed);
    ahead = ahead-IsFramed;
    inside = inside_rest;
    kept = kept_rest;
    later = Reads_shift chunks split.passed split.coming (length split.rest) later_reads;
  }
