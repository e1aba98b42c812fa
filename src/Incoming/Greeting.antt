-- ===== src/Incoming/Greeting.antt =====
-- What the handshake accepts (client.rs), wherever the bytes are cut by the reads.
use vangers_srv.Base.{
  ℕ, ◌≤◌, ◌<◌, ◌≡◌, refl, sym, ap, ◌∙◌, true, none, some, List, [], ◌∷◌, ◌++◌, arith, append_assoc,
  append-nil, ltb, ltb→lt, ltb→le, ◌==◌, if◌then◌else◌, Bool-cases, Option-cases, inl, inr, length,
  drop, byte, byte-drop, Result, ok, err,
}
use vangers_srv.Incoming.Handshake.{
  hs_in, protocol_version, AuthError, hs_unexpected_protocol_version, agrees, judge, auth,
}
use vangers_srv.Incoming.Frames.{byte-append_left}
use vangers_srv.Incoming.Streams.{concat}

-- The request of a client that speaks version `v`, and what it sends then.
abbrev pub request_of : ℕ → List ℕ → List ℕ
request_of v more = hs_in ++ (0 ∷ v ∷ more)

-- The outcome of a handshake with that version.
abbrev pub verdict : ℕ → Result AuthError ℕ
verdict v = if v == protocol_version then ok v else err (hs_unexpected_protocol_version v)

agrees_prefix : (xs ys rs ts : List ℕ) → rs ++ ts ≡ xs ++ ys → agrees xs rs ≡ true
unfolding agrees
agrees_prefix [] ys rs ts e = refl
agrees_prefix (x ∷ xs) ys [] ts e = refl
agrees_prefix (x ∷ xs) ys (r ∷ rs) ts e =
    let heads : r ≡ x = cc in
    let tails : rs ++ ts ≡ xs ++ ys = cc in ground (arith, agrees_prefix xs ys rs ts tails)

agrees_sound :
    (xs rs : List ℕ) → agrees xs rs ≡ true → length xs ≤ length rs → rs ≡ xs ++ drop (length xs) rs
unfolding agrees
agrees_sound [] rs e h = refl
agrees_sound (x ∷ xs) [] e h = absurd (omega arith)
agrees_sound (x ∷ xs) (r ∷ rs) e h =
    let heads : r ≡ x = ground arith in
    ap (λ a. a ∷ rs) heads ∙ ap (λ t. x ∷ t) (agrees_sound xs rs (ground arith) (omega arith))

-- Less than a whole request: the loop reads on. A whole one: it ends.
pub judge_request :
    (received rest : List ℕ) (v : ℕ) (more : List ℕ)
    → received ++ rest ≡ request_of v more
    → judge received ≡ (if ltb (length received) 38 then none else some (verdict v))
unfolding judge
judge_request received rest v more e =
    let fits = agrees_prefix hs_in (0 ∷ v ∷ more) received rest e in
    elim (Bool-cases (ltb (length received) 36)) [
      | inl t ↦ rw (fits, t) (ground arith)
      | inr t ↦ elim (Bool-cases (ltb (length received) 37)) [
        | inl t' ↦ rw (fits, t) (ground arith)
        | inr t' ↦
            let zero_byte : byte received 36 ≡ 0 =
              sym (byte-append_left received rest 36 (omega (arith, ltb→le _ _ t')))
              ∙ ap (λ t. byte t 36) e in
            elim (Bool-cases (ltb (length received) 38)) [
              | inl t'' ↦ rw (fits, t, zero_byte, t'') (ground arith)
              | inr t'' ↦
                  let version : byte received 37 ≡ v =
                    sym (byte-append_left received rest 37 (omega (arith, ltb→le _ _ t'')))
                    ∙ ap (λ t. byte t 37) e in
                  rw (fits, t, zero_byte, t'', version) (ground arith)
            ]
      ]
    ]

request_length : (v : ℕ) (more : List ℕ) → 38 ≤ length (request_of v more)
request_length v more = omega arith

-- Wherever the reads cut a request, with anything behind it, the handshake ends with the verdict on its
-- version.
auth_request :
    (chunks : List (List ℕ)) (received : List ℕ) (v : ℕ) (more : List ℕ)
    → received ++ concat chunks ≡ request_of v more
    → length received < 38
    → auth received chunks ≡ verdict v
unfolding auth
auth_request [] received v more e short =
    absurd (omega (arith, ap length (sym (append-nil received) ∙ e), request_length v more))
auth_request (c ∷ cs) received v more e short =
    let joined = append_assoc received c (concat cs) ∙ e in
    let judged = judge_request (received ++ c) (concat cs) v more joined in
    elim (Bool-cases (ltb (length (received ++ c)) 38)) [
      | inl t ↦ rw (auth, judged, t) (auth_request cs (received ++ c) v more joined (ltb→lt _ _ t))
      | inr t ↦ rw (auth, judged, t) refl
    ]

-- What the loop accepts is a whole request of the server's version.
judge_sound :
    (received : List ℕ) (v : ℕ)
    → judge received ≡ some (ok v)
    → (received ≡ request_of v (drop 38 received)) × (v ≡ protocol_version)
unfolding judge
judge_sound received v e =
    let fits : agrees hs_in received ≡ true = ground arith in
    let long : 38 ≤ length received = ground arith in
    let closed : byte received 36 ≡ 0 = ground arith in
    let version : byte received 37 ≡ v = ground arith in
    (
      agrees_sound hs_in received fits (omega arith)
          ∙ ap (λ t. hs_in ++ t)
              (sym (byte-drop received 36 (omega arith))
                ∙ ap (λ t. byte received 36 ∷ t) (sym (byte-drop received 37 (omega arith)))
                ∙ ap (λ b. b ∷ byte received 37 ∷ drop 38 received) closed
                ∙ ap (λ b. 0 ∷ b ∷ drop 38 received) version),
      ground arith,
    )

auth_accepted :
    (chunks : List (List ℕ)) (received : List ℕ) (v : ℕ)
    → auth received chunks ≡ ok v
    → (more : List ℕ) × (received ++ concat chunks ≡ request_of v more) × (v ≡ protocol_version)
unfolding auth
auth_accepted [] received v e = cc
auth_accepted (c ∷ cs) received v e = elim (Option-cases (judge (received ++ c))) [
  | inl t ↦
      let (more, stream, version) = auth_accepted cs (received ++ c) v (rw (auth, t) at e) in
      (more, sym (append_assoc received c (concat cs)) ∙ stream, version)
  | inr (r, t) ↦
      let answered : r ≡ ok v = rw (auth, t) at e in
      let (whole, version) = judge_sound (received ++ c) v (t ∙ ap some answered) in
      (
        drop 38 (received ++ c) ++ concat cs,
        sym (append_assoc received c (concat cs)) ∙ ap (λ t. t ++ concat cs) whole,
        version,
      )
]

-- Wherever the reads cut what a client sends: when it is a request, with a version and then anything, the
-- handshake ends with that version, if it is the server's, and with an error that names it otherwise.
pub auth_verdict :
    (chunks : List (List ℕ)) (v : ℕ) (more : List ℕ)
    → concat chunks ≡ request_of v more
    → auth [] chunks ≡ verdict v
auth_verdict chunks v more e = auth_request chunks [] v more e (omega arith)

-- When the handshake succeeds, the version is the server's, and the client sent a request of that version
-- first.
pub auth_sound :
    (chunks : List (List ℕ)) (v : ℕ)
    → auth [] chunks ≡ ok v
    → (more : List ℕ) × (concat chunks ≡ request_of v more) × (v ≡ protocol_version)
auth_sound chunks v e = auth_accepted chunks [] v e
