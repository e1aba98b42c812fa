-- ===== src/Outgoing/Updates/Order.antt =====
-- Waiting updates are written in the order in which their objects came to wait, each as its newest
-- (client.rs).
use vangers_srv.Base.{
  ℕ, ◌≡◌, refl, false, none, some, List, [], ◌∷◌, arith, contains, Map, lookup, remove,
  lookup-remove,
}

-- The packets of some objects, in order.
abbrev pub in_order : List ℕ → Map (List ℕ) → List (List ℕ)
in_order [] m = []
in_order (id ∷ ids) m =
    let rest = in_order ids m in elim (lookup id m) [ none ↦ rest | some p ↦ p ∷ rest ]

pub in_order-remove :
    (ids : List ℕ) (id : ℕ) (m : Map (List ℕ))
    → contains ids id ≡ false
    → in_order ids (remove id m) ≡ in_order ids m
in_order-remove [] id m h = refl
in_order-remove (x ∷ xs) id m h = ground (arith, lookup-remove id x m, in_order-remove xs id m)
