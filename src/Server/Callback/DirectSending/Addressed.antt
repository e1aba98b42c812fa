-- ===== src/Server/Callback/DirectSending/Addressed.antt =====
-- Who sends a message and who gets it (callback/direct_sending.rs, player/bind.rs).
use vangers_srv.Base.{
  ℕ, ◌-◌, ◌/◌, ◌%◌, ◌^◌, ◌≡◌, ◌≢◌, ◌⊎◌, ap, ◌∙◌, true, none, some, List, [], ◌∷◌, ◌++◌, arith, All,
  is_some, Bool-cases, Option-cases, inl, inr,
}
use vangers_srv.Player.{Player, bind_mask}
use vangers_srv.Server.Callback.DirectSending.{is_addressed, is_receiver, sender, receivers}

-- A player that is bound and has a name sends under its bind id: it is the client's, and no bound
-- player behind it in the list is.
pub record Sender (client_id player_id : ℕ) (ps : List Player) : Type 0 where
  pub ahead : List Player
  pub player : Player
  pub behind : List Player
  pub split : ps ≡ ahead ++ player ∷ behind
  pub own : player.client_id ≡ client_id
  pub bound : player.bind ≡ some player_id
  pub named : is_some player.auth ≡ true
  pub last : All (λ q. (q.bind ≡ none) ⊎ (q.client_id ≢ client_id)) behind

-- A bound player of another client, when the bit of the mask before its bind id is set: bit 0 is
-- that of the player 1.
pub record Receives (client_id mask : ℕ) (p : Player) : Type 0 where
  pub id : ℕ
  pub bound : p.bind ≡ some id
  pub foreign : p.client_id ≢ client_id
  pub is_set : mask / 2 ^ (id - 1) % 2 ≡ 1

-- The clients of the players that receive, in the order of the players.
pub data Receivers (client_id mask : ℕ) : List Player → List ℕ → Type 0 where
  nobody : Receivers client_id mask [] []
  takes :
      {p : Player} {ps : List Player} {ids : List ℕ}
      → Receives client_id mask p
      → Receivers client_id mask ps ids
      → Receivers client_id mask (p ∷ ps) (p.client_id ∷ ids)
  passes_by :
      {p : Player} {ps : List Player} {ids : List ℕ}
      → ¬ Receives client_id mask p
      → Receivers client_id mask ps ids
      → Receivers client_id mask (p ∷ ps) ids

module _ (client_id : ℕ) where
  -- What the loop finds, and what it passed.
  Found : List Player → Player → Type 0
  Found ps player =
      (ahead : List Player) × (behind : List Player) × (ps ≡ ahead ++ player ∷ behind)
      × (player.client_id ≡ client_id)
      × All (λ q. (q.bind ≡ none) ⊎ (q.client_id ≢ client_id)) behind

  passed :
      (ps : List Player)
      → sender client_id ps ≡ none
      → All (λ q. (q.bind ≡ none) ⊎ (q.client_id ≢ client_id)) ps
  unfolding sender
  passed [] h = tt
  passed (p ∷ ps) h = elim (Option-cases (sender client_id ps)) [
    | inr (q, e) ↦ absurd (ground arith)
    | inl e ↦ (ground arith, passed ps e)
  ]

  sender-Found : (ps : List Player) (q : Player) → sender client_id ps ≡ some q → Found ps q
  unfolding sender Found
  sender-Found [] q h = absurd (cc)
  sender-Found (p ∷ ps) q h = elim (Option-cases (sender client_id ps)) [
    | inr (r, e) ↦
        let same : r ≡ q = ground arith in
        let (ahead, behind, split, own, last) = sender-Found ps q (e ∙ ap some same) in
        (p ∷ ahead, behind, ap (λ x. p ∷ x) split, own, last)
    | inl e ↦
        let same : p ≡ q = ground arith in
        ([], ps, ap (λ x. x ∷ ps) same, ground arith, passed ps e)
  ]

  -- The player that the loop finds, when it has a name.
  pub sender-Sender :
      (ps : List Player) (q : Player) (player_id : ℕ)
      → sender client_id ps ≡ some q
      → q.bind ≡ some player_id
      → is_some q.auth ≡ true
      → Sender client_id player_id ps
  unfolding Found
  sender-Sender ps q player_id found bound named =
      let (ahead, behind, split, own, last) = sender-Found ps q found in
      record {
        ahead = ahead;
        player = q;
        behind = behind;
        split = split;
        own = own;
        bound = bound;
        named = named;
        last = last;
      }

  module _ (mask : ℕ) where
    is_receiver-Receives :
        (p : Player) → is_receiver client_id mask p ≡ true → Receives client_id mask p
    unfolding is_addressed bind_mask
    is_receiver-Receives p h = elim (Option-cases p.bind) [
      | inl e ↦ absurd (ground arith)
      | inr (id, e) ↦ record { id = id; bound = e; foreign = ground arith; is_set = ground arith }
    ]

    Receives-is_receiver :
        (p : Player) → Receives client_id mask p → is_receiver client_id mask p ≡ true
    unfolding is_addressed bind_mask
    Receives-is_receiver p r = rw (r.bound) (ground (arith, r.foreign, r.is_set))

    pub receivers-Receivers :
        (ps : List Player) → Receivers client_id mask ps (receivers client_id mask ps)
    unfolding receivers
    receivers-Receivers [] = nobody
    receivers-Receivers (p ∷ ps) = elim (Bool-cases (is_receiver client_id mask p)) [
      | inl e ↦ rw e (takes (is_receiver-Receives p e) (receivers-Receivers ps))
      | inr e ↦ rw e (
          passes_by (λ r. absurd (let yes = Receives-is_receiver p r in cc))
            (receivers-Receivers ps))
    ]
