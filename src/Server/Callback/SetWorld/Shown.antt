-- ===== src/Server/Callback/SetWorld/Shown.antt =====
-- What a player is shown when it enters a world (callback/set_world.rs).
use mathlib.Core.List.{Perm}
use mathlib.Core.List.Perm
use vangers_srv.Base.{
  ℕ, ◌+◌, ◌/◌, ◌%◌, ◌^◌, ◌≤◌, ◌<◌, ◌≡◌, ◌≢◌, sym, ◌∙◌, ◌⊎◌, inl, inr, true, false, not, List, [],
  ◌∷◌, ◌++◌, arith, All, select, Map, ◌==◌, if◌then◌else◌,
}
use vangers_srv.Base.Sorting.{
  Ordered, sort_by-perm, sort_by-Ordered, All-sort_by, select-perm, All-select,
}
use vangers_srv.Vanject.{Vanject}
use vangers_srv.Vanject.Ids.{IsI32, get_world, get_vanject_type}
use vangers_srv.Server.Callback.SetWorld.Snapshot.{
  world_snapshot_order, should_include_in_world_snapshot, before, sort_objects, values, snapshot,
}

-- The six bits of an id from bit 16 on.
abbrev pub kind : Vanject → ℕ
kind v = v.id / 2 ^ 16 % 64

-- An object that a player with a bind id may see in a world: the four bits of its id from bit 22 on
-- are the world, and it is stuff, or a vanger, slot, device or shell of somebody else.
abbrev pub Shown : ℕ → ℕ → Vanject → Type 0
Shown world_id bind_id v =
    (v.id / 2 ^ 22 % 16 ≡ world_id)
    × ((kind v ≡ 11)
        ⊎ (((kind v ≡ 9) ⊎ ((kind v ≡ 2) ⊎ ((kind v ≡ 1) ⊎ (kind v ≡ 3))))
            × (v.player_bind_id ≢ bind_id)))

abbrev pub position : ℕ → List ℕ → ℕ
position k [] = 0
position k (x ∷ xs) = if k == x then 0 else 1 + position k xs

-- Vangers, slots, devices, shells and stuff, in the order in which a player gets them.
abbrev pub place : Vanject → ℕ
place v = position (kind v) (9 ∷ 2 ∷ 1 ∷ 3 ∷ 11 ∷ [])

-- The order of two words as `i32`: a negative one is less than one that is not.
abbrev pub SignedLe : ℕ → ℕ → Type 0
SignedLe a b = ((2 ^ 31 ≤ a) × ((b < 2 ^ 31) ⊎ (a ≤ b))) ⊎ ((b < 2 ^ 31) × (a ≤ b))

-- An object may stand before another: its kind comes first, or they are of one kind and its id, as a
-- signed number, is not greater.
abbrev pub Precedes : Vanject → Vanject → Type 0
Precedes v w = (place v < place w) ⊎ ((kind v ≡ kind w) × SignedLe v.id w.id)

Precedes-trans : (u v w : Vanject) → Precedes u v → Precedes v w → Precedes u w
Precedes-trans u v w (inl h) (inl k) = inl (omega arith)
Precedes-trans u v w (inl h) (inr k) = inl (rw (sym k.0) h)
Precedes-trans u v w (inr h) (inl k) = inl (rw h.0 k)
Precedes-trans u v w (inr h) (inr k) = inr (h.0 ∙ k.0, ground arith)

module _ (world_id bind_id : ℕ) where
  -- An object that the snapshot has, with an id that is a word.
  abbrev IsListed : Vanject → Type 0
  IsListed v = IsI32 v.id × Shown world_id bind_id v

  order-place : (v : Vanject) → Shown world_id bind_id v → world_snapshot_order v ≡ place v
  unfolding world_snapshot_order get_vanject_type
  order-place v s = ground arith

  one_kind :
      (v w : Vanject)
      → Shown world_id bind_id v
      → Shown world_id bind_id w
      → place v ≡ place w
      → kind v ≡ kind w
  one_kind v w s t e = ground arith

  before-Precedes : (v w : Vanject) → IsListed v → IsListed w → before v w ≡ true → Precedes v w
  unfolding before
  before-Precedes v w p q h =
      ground (arith, order-place v p.1, order-place w q.1, one_kind v w p.1 q.1)

  before-Precedes_other :
      (v w : Vanject) → IsListed v → IsListed w → before v w ≡ false → Precedes w v
  unfolding before
  before-Precedes_other v w p q h =
      ground (arith, order-place v p.1, order-place w q.1, one_kind w v q.1 p.1)

  included :
      (v : Vanject)
      → should_include_in_world_snapshot world_id bind_id v ≡ true
      → Shown world_id bind_id v
  unfolding should_include_in_world_snapshot get_world get_vanject_type
  included v h = ground arith

  left_out :
      (v : Vanject)
      → should_include_in_world_snapshot world_id bind_id v ≡ false
      → ¬ Shown world_id bind_id v
  unfolding should_include_in_world_snapshot get_world get_vanject_type
  left_out v h s = ground arith

  -- When the ids of a game's objects are below 2 ^ 32: the objects that a player with a bind id is shown when
  -- it enters a world, together with others that are hidden from it, are the game's objects, each as
  -- often; every shown one has the world in its id, and is stuff, or a vanger, slot, device or shell
  -- of another bind id, and no hidden one is so; and the shown ones come as vangers, slots, devices,
  -- shells and stuff, and those of one kind by their id as an `i32`.
  pub snapshot_exact :
      (m : Map Vanject)
      → All (λ v. IsI32 v.id) (values m)
      → ((hidden : List Vanject) × Perm (snapshot world_id bind_id m ++ hidden) (values m)
          × All (λ v. ¬ Shown world_id bind_id v) hidden)
        × All (Shown world_id bind_id) (snapshot world_id bind_id m)
        × Ordered Precedes (snapshot world_id bind_id m)
  unfolding snapshot sort_objects
  snapshot_exact m words =
      let rule = should_include_in_world_snapshot world_id bind_id in
      let shown = select rule (values m) in
      let listed =
        All-select rule (λ v. IsI32 v.id) IsListed (values m) (λ v w e. (w, included v e)) words in
      (
        (
          select (λ v. not (rule v)) (values m),
          Perm.trans
              (Perm.append_right (select (λ v. not (rule v)) (values m))
                (sort_by-perm before shown))
              (select-perm rule (values m)),
          All-select (λ v. not (rule v)) (λ v. IsI32 v.id) (λ v. ¬ Shown world_id bind_id v)
              (values m) (λ v w e. left_out v (ground arith)) words,
        ),
        All-sort_by before (Shown world_id bind_id) shown (
            All-select rule (λ v. IsI32 v.id) (Shown world_id bind_id) (values m)
              (λ v w e. included v e) words),
        sort_by-Ordered before IsListed Precedes before-Precedes before-Precedes_other
            Precedes-trans shown listed,
      )
