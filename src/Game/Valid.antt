-- ===== src/Game/Valid.antt =====
-- What holds of every game of the server: it stands under its id, its table of objects is in order, and
-- the ids of its players are distinct and from 1 to 30 (game/game.rs).
use vangers_srv.Base.{
  ℕ, ◌≤◌, ◌≡◌, refl, Option-cases, sym, subst, ◌∙◌, Bool, false, some, List, [], ◌∷◌, arith, ◌==◌,
  select, contains, All, Bool-cases, inl, inr,
}
use vangers_srv.Player.{Player}
use vangers_srv.Game.{Game, bind_ids, get_player, set_player}
use vangers_srv.Game.Slots.{Distinct}
use vangers_srv.Game.Attach.{IsSlotted}
use vangers_srv.Game.Objects.{IsTable, IsStored}

pub record IsGame (k : ℕ) (g : Game) : Type 0 where
  pub named : g.id ≡ k
  pub stored : IsStored g
  pub slotted : IsSlotted g.players

-- The game and the ids of its players are the same.
abbrev pub SameIds : Game → Game → Type 0
SameIds g g' = (g'.id ≡ g.id) × (bind_ids g'.players ≡ bind_ids g.players)

same_ids-IsSlotted : (ps qs : List Player) → bind_ids qs ≡ bind_ids ps → IsSlotted ps → IsSlotted qs
same_ids-IsSlotted ps qs e h = record {
  distinct = subst Distinct (sym e) h.distinct;
  positive = subst (All (λ i. 1 ≤ i)) (sym e) h.positive;
  bounded = subst (All (λ i. i ≤ 30)) (sym e) h.bounded;
}

pub SameIds-IsGame :
    (k : ℕ) (g g' : Game) → SameIds g g' → IsTable g'.vanjects → IsGame k g → IsGame k g'
SameIds-IsGame k g g' same table h = record {
  named = same.0 ∙ h.named;
  stored = table;
  slotted = same_ids-IsSlotted g.players g'.players same.1 h.slotted;
}

pub bind_ids-set_player :
    (c : ℕ) (q : Player) (ps : List Player) (p : Player)
    → get_player c ps ≡ some p
    → q.bind ≡ p.bind
    → bind_ids (set_player c q ps) ≡ bind_ids ps
unfolding get_player set_player
bind_ids-set_player c q [] p h e = refl
bind_ids-set_player c q (x ∷ xs) p h e = elim (Bool-cases (x.client_id == c)) [
  | inl t ↦ rw t (same_head q x p xs e (ground arith))
  | inr t ↦
      rw t (same_tail x xs (set_player c q xs) (bind_ids-set_player c q xs p (ground arith) e))
]
  where
    same_head :
        (q x p : Player) (xs : List Player)
        → q.bind ≡ p.bind
        → x ≡ p
        → bind_ids (q ∷ xs) ≡ bind_ids (x ∷ xs)
    same_head q x p xs e s = ground arith

    same_tail :
        (x : Player) (xs ys : List Player)
        → bind_ids ys ≡ bind_ids xs
        → bind_ids (x ∷ ys) ≡ bind_ids (x ∷ xs)
    same_tail x xs ys e = ground arith

-- A write to a player that keeps its bind id.
pub set_player-IsGame :
    (k c : ℕ) (q : Player) (g : Game) (p : Player)
    → get_player c g.players ≡ some p
    → q.bind ≡ p.bind
    → IsGame k g
    → IsGame k (record g { players = set_player c q g.players })
set_player-IsGame k c q g p h e v =
    SameIds-IsGame k g _ (refl, bind_ids-set_player c q g.players p h e) v.stored v

contains-select :
    (p : Player → Bool) (j : ℕ) (ps : List Player)
    → contains (bind_ids ps) j ≡ false
    → contains (bind_ids (select p ps)) j ≡ false
contains-select p j [] h = refl
contains-select p j (x ∷ xs) h = ground (arith, contains-select p j xs)

Distinct-select :
    (p : Player → Bool) (ps : List Player)
    → Distinct (bind_ids ps)
    → Distinct (bind_ids (select p ps))
Distinct-select p [] h = tt
Distinct-select p (x ∷ xs) h = elim (Option-cases x.bind) [
  | inl e ↦ ground (arith, Distinct-select p xs)
  | inr (id, e) ↦ ground (arith, Distinct-select p xs, contains-select p id xs)
]

All-bind_ids :
    (P : ℕ → Type 0) (p : Player → Bool) (ps : List Player)
    → All P (bind_ids ps)
    → All P (bind_ids (select p ps))
All-bind_ids P p [] h = tt
All-bind_ids P p (x ∷ xs) h = elim (Option-cases x.bind) [
  | inl e ↦ ground (arith, All-bind_ids P p xs)
  | inr (id, e) ↦ ground (arith, All-bind_ids P p xs)
]

-- Taking players out.
pub select-IsGame :
    (k : ℕ) (p : Player → Bool) (g : Game)
    → IsGame k g
    → IsGame k (record g { players = select p g.players })
select-IsGame k p g v = record {
  named = v.named;
  stored = v.stored;
  slotted = record {
    distinct = Distinct-select p g.players v.slotted.distinct;
    positive = All-bind_ids (λ i. 1 ≤ i) p g.players v.slotted.positive;
    bounded = All-bind_ids (λ i. i ≤ 30) p g.players v.slotted.bounded;
  };
}
