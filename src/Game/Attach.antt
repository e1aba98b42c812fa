-- ===== src/Game/Attach.antt =====
-- Attaching a player gives it the least free id, and ids stay distinct (game/game.rs).
use vangers_srv.Base.{
  IsOk, subst, ap, ℕ, ◌≤◌, ◌<◌, ◌≡◌, refl, sym, ◌⊎◌, inl, inr, true, false, none, some, List, [],
  ◌∷◌, ◌++◌, arith, ◌==◌, if◌then◌else◌, contains, All, ok, ◌∙◌, Option-cases,
}
use vangers_srv.Player.{Player, bind_new, set_bind}
use vangers_srv.Game.{Game, bind_ids, get_uniq_player_id, attach_player, attached}
use vangers_srv.Game.Slots.{
  Distinct, Above, sort, sort-Above, contains-sort, first_gap_found, first_gap_least,
  first_gap_absent,
}

-- The ids of the players are from 1 to 30 and distinct.
pub record IsSlotted (players : List Player) : Type 0 where
  pub distinct : Distinct (bind_ids players)
  pub positive : All (λ i. 1 ≤ i) (bind_ids players)
  pub bounded : All (λ i. i ≤ 30) (bind_ids players)

bind_ids-append :
    (ps : List Player) (p : Player) (k : ℕ)
    → bind_ids (ps ++ record p { bind = some k } ∷ []) ≡ bind_ids ps ++ k ∷ []
bind_ids-append [] p k = refl
bind_ids-append (q ∷ ps) p k = ground (arith, bind_ids-append ps p k)

All-snoc : (P : ℕ → Type 0) (xs : List ℕ) (k : ℕ) → All P xs → P k → All P (xs ++ k ∷ [])
All-snoc P [] k h p = (p, tt)
All-snoc P (x ∷ xs) k h p = (h.0, All-snoc P xs k h.1 p)

contains-snoc :
    (xs : List ℕ) (k j : ℕ) → contains (xs ++ k ∷ []) j ≡ (if k == j then true else contains xs j)
contains-snoc [] k j = refl
contains-snoc (x ∷ xs) k j = ground (arith, contains-snoc xs k j)

Distinct-snoc :
    (xs : List ℕ) (k : ℕ) → Distinct xs → contains xs k ≡ false → Distinct (xs ++ k ∷ [])
Distinct-snoc [] k d c = (refl, tt)
Distinct-snoc (x ∷ xs) k d c = ground (arith, contains-snoc xs k x, Distinct-snoc xs k d.1)

-- What the search for an id answers.
pub free_id :
    (g : Game) (k : ℕ)
    → IsSlotted g.players
    → get_uniq_player_id g ≡ some k
    → (1 ≤ k) × (k ≤ 30) × (contains (bind_ids g.players) k ≡ false)
unfolding get_uniq_player_id
free_id g k v e =
    let ids = bind_ids g.players in
    let sorted = sort-Above ids v.positive v.distinct in
    ground (arith, first_gap_found 30 1 k (sort ids) sorted e, contains-sort k ids)

pub attached-IsSlotted :
    (g : Game) (p : Player) (k : ℕ)
    → IsSlotted g.players
    → 1 ≤ k
    → k ≤ 30
    → contains (bind_ids g.players) k ≡ false
    → IsSlotted (attached g p k).players
attached-IsSlotted g p k v lo hi fresh = record {
  distinct = rw (bind_ids-append g.players p k) (Distinct-snoc _ k v.distinct fresh);
  positive = rw (bind_ids-append g.players p k) (All-snoc _ _ k v.positive lo);
  bounded = rw (bind_ids-append g.players p k) (All-snoc _ _ k v.bounded hi);
}

attach_player_id :
    {E : Type 0} (g : Game) (p : Player) (k : ℕ)
    → get_uniq_player_id g ≡ some k
    → 1 ≤ k
    → k ≤ 30
    → attach_player {E = E} g p ≡ ok (some k, attached g p k)
unfolding attach_player set_bind bind_new
attach_player_id {E} g p k e lo hi = rw (e, attach_player) (ground arith)

attach_player_rejects :
    {E : Type 0} (g : Game) (p : Player)
    → get_uniq_player_id g ≡ none
    → attach_player {E = E} g p ≡ ok (none, g)
unfolding attach_player
attach_player_rejects g p e = ground arith

-- What attaching comes to, in one statement.
attach_player-IsSlotted :
    {E : Type 0} (g : Game) (p : Player)
    → IsSlotted g.players
    → ((k : ℕ) × (attach_player {E = E} g p ≡ ok (some k, attached g p k))
        × (contains (bind_ids g.players) k ≡ false)
        × ((j : ℕ) → 1 ≤ j → j < k → contains (bind_ids g.players) j ≡ true)
        × IsSlotted (attached g p k).players)
      ⊎ ((attach_player {E = E} g p ≡ ok (none, g))
          × ((j : ℕ) → 1 ≤ j → j ≤ 30 → contains (bind_ids g.players) j ≡ true))
unfolding get_uniq_player_id
attach_player-IsSlotted g p v = elim (Option-cases (get_uniq_player_id g)) [
  | inl e ↦ inr (
    attach_player_rejects g p e,
    λ j lo hi.
        sym (contains-sort j ids) ∙ first_gap_absent 30 1 j (sort ids) sorted e lo (omega arith),
  )
  | inr (k, e) ↦
      let (lo, hi, fresh) = free_id g k v e in
      inl (
        k,
        attach_player_id g p k e lo hi,
        fresh,
        λ j lo' hi'.
            sym (contains-sort j ids) ∙ first_gap_least 30 1 k j (sort ids) sorted e lo' hi',
        attached-IsSlotted g p k v lo hi fresh,
      )
]
  where
    ids : List ℕ
    ids = bind_ids g.players

    sorted : Above 1 (sort ids)
    sorted = sort-Above ids v.positive v.distinct

module _ (E : Type 0) (g : Game) (p : Player) (v : IsSlotted g.players) where
  -- When the ids of a game's players are distinct and from 1 to 30, attaching a player returns,
  -- with an id or without one: it does not panic.
  pub attach_player_returns : IsOk (attach_player {E = E} g p)
  attach_player_returns = elim (attach_player-IsSlotted {E = E} g p v) [
    | inl (k, e, fresh, least, slotted) ↦ rw e tt
    | inr (e, rest) ↦ rw e tt
  ]

  -- When the ids of a game's players are distinct and from 1 to 30 and a player is attached with
  -- an id, no player of the game had that id, the game is the old one with the player last under
  -- its id and without the snapshots of that id, and the ids are still distinct and from 1 to 30.
  pub attach_player_fresh :
      (k : ℕ) (g' : Game)
      → attach_player {E = E} g p ≡ ok (some k, g')
      → (g' ≡ attached g p k) × (contains (bind_ids g.players) k ≡ false) × IsSlotted g'.players
  attach_player_fresh k g' h = elim (attach_player-IsSlotted {E = E} g p v) [
    | inl (i, e, fresh, least, slotted) ↦
        let same : i ≡ k = ground arith in
        let after : g' ≡ attached g p i = ground arith in
        (
          after ∙ ap (attached g p) same,
          subst (λ x. contains (bind_ids g.players) x ≡ false) same fresh,
          subst (λ x. IsSlotted x.players) (sym after) slotted,
        )
    | inr (e, rest) ↦ absurd (ground arith)
  ]

  -- When the ids of a game's players are distinct and from 1 to 30 and a player is attached with
  -- an id, every id from 1 up to it is taken.
  pub attach_player_least :
      (k : ℕ) (g' : Game) (j : ℕ)
      → attach_player {E = E} g p ≡ ok (some k, g')
      → 1 ≤ j
      → j < k
      → contains (bind_ids g.players) j ≡ true
  attach_player_least k g' j h lo hi = elim (attach_player-IsSlotted {E = E} g p v) [
    | inl (i, e, fresh, least, slotted) ↦ ground (arith, least j)
    | inr (e, rest) ↦ absurd (ground arith)
  ]

  -- When the ids of a game's players are distinct and from 1 to 30 and a player is turned away,
  -- every id from 1 to 30 is taken and the game is as it was.
  pub attach_player_full :
      (g' : Game) (j : ℕ)
      → attach_player {E = E} g p ≡ ok (none, g')
      → 1 ≤ j
      → j ≤ 30
      → (contains (bind_ids g.players) j ≡ true) × (g' ≡ g)
  attach_player_full g' j h lo hi = elim (attach_player-IsSlotted {E = E} g p v) [
    | inl (i, e, fresh, least, slotted) ↦ absurd (ground arith)
    | inr (e, rest) ↦ ground (arith, rest j)
  ]
