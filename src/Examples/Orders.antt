-- ===== src/Examples/Orders.antt =====
-- The order of a batch deletion at concrete programs.
use go_bpfman.Prelude.{
  ℕ, ◌-◌, ◌<◌, ◌==◌, ◌≡◌, refl, ◌↔◌, ◌⊎◌, inl, inr, List, [], ◌∷◌, some, In, Bool-cases, arith,
}
use go_bpfman.Manager.Order.{Dependents, dependents_of, order_program_deletes}
use go_bpfman.Manager.Order.Members.{Precedes, Distinct}
use go_bpfman.Manager.Order.Correct.{
  order_program_deletes_total, order_program_deletes-dependents_first,
}

-- 8 and 9 share the maps of 7, and 10 those of 9.
abbrev pub dependents : Dependents
dependents = (7, 8 ∷ 9 ∷ []) ∷ (9, 10 ∷ []) ∷ []

abbrev ids : List ℕ
ids = 7 ∷ 10 ∷ 9 ∷ 7 ∷ []

abbrev deleted : List ℕ
deleted = 10 ∷ 9 ∷ 7 ∷ []

ordered : order_program_deletes ids dependents ≡ some deleted
unfolding order_program_deletes
ordered = refl

-- A cycle, which no load can make, still has an order.
cycle : order_program_deletes (1 ∷ 2 ∷ []) ((1, 2 ∷ []) ∷ (2, 1 ∷ []) ∷ []) ≡ some (2 ∷ 1 ∷ [])
unfolding order_program_deletes
cycle = refl

order_program_deletes_total_example :
    (out : List ℕ) × (order_program_deletes ids dependents ≡ some out)
    × ((a : ℕ) → In a out ↔ In a ids)
    × (Distinct out ⊎ (out ≡ ids))
order_program_deletes_total_example = order_program_deletes_total ids dependents

-- The later a program is loaded, the lower it ranks.
abbrev pub rank : ℕ → ℕ
rank a = 100 - a

pub acyclic : (a d : ℕ) → In d (dependents_of dependents a) → rank d < rank a
unfolding dependents_of
acyclic a d i = elim (Bool-cases (7 == a)) [
  | inl e ↦ ground (arith, rw e at i)
  | inr e ↦ elim (Bool-cases (9 == a)) [
    | inl f ↦ ground (arith, rw (e, f) at i)
    | inr f ↦ absurd (rw (e, f) at i)
  ]
]

in_nine : In 10 (dependents_of dependents 9)
unfolding dependents_of
in_nine = inl refl

order_program_deletes-dependents_first_example : Precedes 10 9 deleted
order_program_deletes-dependents_first_example =
    order_program_deletes-dependents_first ids dependents rank acyclic deleted ordered 9 10
      (inr (inr (inl refl))) in_nine (inr (inl refl))
