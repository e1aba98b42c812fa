-- ===== src/Game/Objects.antt =====
-- The table of objects of a game: every object stands once, under its own id (game/game.rs).
use vangers_srv.Base.{
  ℕ, ◌≡◌, refl, Bool, not, some, [], ◌∷◌, arith, ◌==◌, All, Map, lookup, retain_keys, remove,
  insert, modify, IsMap, retain_keys-IsMap, insert-IsMap, modify-IsMap,
}
use vangers_srv.Vanject.{Vanject}
use vangers_srv.Game.{Game}

-- The entries' keys are their objects' ids.
abbrev pub Keyed : Map Vanject → Type 0
Keyed m = All (λ e. e.1.id ≡ e.0) m

pub record IsTable (m : Map Vanject) : Type 0 where
  pub unique : IsMap m
  pub keyed : Keyed m

lookup-Keyed : (id : ℕ) (v : Vanject) (m : Map Vanject) → Keyed m → lookup id m ≡ some v → v.id ≡ id
unfolding lookup
lookup-Keyed id v [] k h = absurd (ground arith)
lookup-Keyed id v ((j, w) ∷ m) k h = ground (arith, lookup-Keyed id v m k.1, k.0)

retain_keys-Keyed : (p : ℕ → Bool) (m : Map Vanject) → Keyed m → Keyed (retain_keys p m)
unfolding retain_keys
retain_keys-Keyed p [] k = tt
retain_keys-Keyed p ((j, w) ∷ m) k = ground (arith, retain_keys-Keyed p m k.1, k.0)

modify-Keyed :
    (id : ℕ) (v : Vanject) (m : Map Vanject) → v.id ≡ id → Keyed m → Keyed (modify id (λ _. v) m)
unfolding modify
modify-Keyed id v [] e k = tt
modify-Keyed id v ((j, w) ∷ m) e k = ground (arith, modify-Keyed id v m e k.1, k.0)

pub lookup-IsTable :
    (id : ℕ) (v : Vanject) (m : Map Vanject) → IsTable m → lookup id m ≡ some v → v.id ≡ id
lookup-IsTable id v m t h = lookup-Keyed id v m t.keyed h

pub retain_keys-IsTable : (p : ℕ → Bool) (m : Map Vanject) → IsTable m → IsTable (retain_keys p m)
retain_keys-IsTable p m t = record {
  unique = retain_keys-IsMap p m t.unique;
  keyed = retain_keys-Keyed p m t.keyed;
}

pub remove-IsTable : (id : ℕ) (m : Map Vanject) → IsTable m → IsTable (remove id m)
unfolding remove
remove-IsTable id m t = retain_keys-IsTable (λ j. not (j == id)) m t

pub insert-IsTable : (v : Vanject) (m : Map Vanject) → IsTable m → IsTable (insert v.id v m)
unfolding insert remove
insert-IsTable v m t = record {
  unique = insert-IsMap v.id v m t.unique;
  keyed = (refl, retain_keys-Keyed (λ j. not (j == v.id)) m t.keyed);
}

pub modify-IsTable :
    (id : ℕ) (v : Vanject) (m : Map Vanject)
    → v.id ≡ id
    → IsTable m
    → IsTable (modify id (λ _. v) m)
modify-IsTable id v m e t = record {
  unique = modify-IsMap id (λ _. v) m t.unique;
  keyed = modify-Keyed id v m e t.keyed;
}

-- The table of a game.
abbrev pub IsStored : Game → Type 0
IsStored g = IsTable g.vanjects
