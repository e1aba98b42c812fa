-- ===== src/Outgoing/Updates/Invariant.antt =====
-- The order of the waiting updates lists the objects that have one, each once (client.rs).
use vangers_srv.Base.{
  ℕ, ◌≡◌, refl, ◌∙◌, sym, subst, true, false, not, some, List, [], ◌∷◌, ◌++◌, arith, ◌==◌,
  if◌then◌else◌, select, contains, Map, lookup, remove, lookup-insert, lookup-remove, is_some,
  Bool-cases, Option-cases, inl, inr,
}
use vangers_srv.Outgoing.Updates.{Updates, no_updates, replace, take_from, take_next, discard}

abbrev pub Distinct : List ℕ → Type 0
Distinct [] = Unit
Distinct (x ∷ xs) = (contains xs x ≡ false) × Distinct xs

pub record IsQueue (u : Updates) : Type 0 where
  pub distinct : Distinct u.order
  pub listed : (id : ℕ) → contains u.order id ≡ is_some (lookup id u.packets)

pub no_updates-IsQueue : IsQueue no_updates
unfolding lookup
no_updates-IsQueue = record { distinct = tt; listed = λ id. refl }

contains-snoc :
    (xs : List ℕ) (k j : ℕ) → contains (xs ++ k ∷ []) j ≡ (if k == j then true else contains xs j)
contains-snoc [] k j = refl
contains-snoc (x ∷ xs) k j = ground (arith, contains-snoc xs k j)

Distinct-snoc :
    (xs : List ℕ) (k : ℕ) → Distinct xs → contains xs k ≡ false → Distinct (xs ++ k ∷ [])
Distinct-snoc [] k h e = (refl, tt)
Distinct-snoc (x ∷ xs) k h e = ground (arith, contains-snoc xs k x, Distinct-snoc xs k h.1, h.0)

contains-select :
    (xs : List ℕ) (k j : ℕ)
    → contains (select (λ q. not (q == k)) xs) j ≡ (if j == k then false else contains xs j)
contains-select [] k j = ground arith
contains-select (x ∷ xs) k j = ground (arith, contains-select xs k j)

Distinct-select : (xs : List ℕ) (k : ℕ) → Distinct xs → Distinct (select (λ q. not (q == k)) xs)
Distinct-select [] k h = tt
Distinct-select (x ∷ xs) k h = ground (arith, contains-select xs k x, Distinct-select xs k h.1, h.0)

pub replace-IsQueue :
    (id : ℕ) (packet : List ℕ) (u : Updates) → IsQueue u → IsQueue (replace id packet u).1
unfolding replace
replace-IsQueue id packet u q = elim (Bool-cases (is_some (lookup id u.packets))) [
  | inl e ↦ record {
    distinct = rw e q.distinct;
    listed = λ j. ground (arith, lookup-insert id j packet u.packets, q.listed j, q.listed id);
  }
  | inr e ↦ record {
    distinct = rw e (Distinct-snoc u.order id q.distinct (q.listed id ∙ e));
    listed = λ j.
        ground (arith, lookup-insert id j packet u.packets, q.listed j, contains-snoc u.order id j);
  }
]

pub discard-IsQueue : (id : ℕ) (u : Updates) → IsQueue u → IsQueue (discard id u).1
unfolding discard
discard-IsQueue id u q = elim (Bool-cases (is_some (lookup id u.packets))) [
  | inl e ↦ record {
    distinct = rw e (Distinct-select u.order id q.distinct);
    listed =
        λ j. ground (arith, lookup-remove id j u.packets, q.listed j, contains-select u.order id j);
  }
  | inr e ↦ record {
    distinct = rw e q.distinct;
    listed = λ j. ground (arith, lookup-remove id j u.packets, q.listed j, q.listed id);
  }
]

-- The first of the order is what is taken.
pub take_first :
    (id : ℕ) (ids : List ℕ) (m : Map (List ℕ))
    → IsQueue (record { order = id ∷ ids; packets = m })
    → (packet : List ℕ) × (lookup id m ≡ some packet)
      × (take_next (record { order = id ∷ ids; packets = m })
          ≡ (some packet, record { order = ids; packets = remove id m }))
unfolding take_next take_from
take_first id ids m q = elim (Option-cases (lookup id m)) [
  | inl e ↦ absurd (ground (arith, q.listed id))
  | inr (p, e) ↦ (p, e, ground arith)
]

taken-IsQueue :
    (ids : List ℕ) (m : Map (List ℕ))
    → IsQueue (record { order = ids; packets = m })
    → IsQueue (take_next (record { order = ids; packets = m })).1
unfolding take_next take_from
taken-IsQueue [] m q = q
taken-IsQueue (id ∷ ids) m q =
    let (p, e, taken) = take_first id ids m q in
    subst (λ r. IsQueue r.1) (sym taken)
      (record {
        distinct = q.distinct.1;
        listed = λ j. ground (arith, lookup-remove id j m, q.listed j, q.distinct.0);
      })

pub take_next-IsQueue : (u : Updates) → IsQueue u → IsQueue (take_next u).1
take_next-IsQueue u q = taken-IsQueue u.order u.packets q
