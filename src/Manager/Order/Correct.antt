-- ===== src/Manager/Order/Correct.antt =====
-- The deletion order: it is found on every map of dependents, and puts dependents first.
use mathlib.Core.Option.{some-injective}
use go_bpfman.Prelude.{
  ℕ, suc, ◌<◌, ◌≡◌, refl, ◌⊎◌, inl, inr, ◌↔◌, true, ◌||◌, List, [], ◌∷◌, some, length, leb, In,
  Bool-cases, arith,
}
use go_bpfman.Manager.Order.{
  Dependents, dependents_of, Walk, visit_all, order_program_deletes, is_empty,
}
use go_bpfman.Manager.Order.Members.{unseen, unseen-le, unseen-le-length, Precedes, Distinct}
use go_bpfman.Manager.Order.Walks.{IsWalk, Extends, Extends-refl, Extends-trans}
use go_bpfman.Manager.Order.Visit.{visit-Visited}

abbrev Settled : Walk → Type 0
Settled w = (a : ℕ) → In a w.seen → In a w.ordered

module _ (ids : List ℕ) (dependents : Dependents) (rank : ℕ → ℕ) where
  -- Where none waits, no rank matters.
  settle :
      {k : ℕ} (m : ℕ) (w : Walk)
      → Settled w
      → IsWalk ids dependents rank k w
      → IsWalk ids dependents rank m w
  settle m w s i = record {
    waiting = λ a j. inl (s a j);
    seen = i.seen;
    chosen = i.chosen;
    distinct = i.distinct;
    closed = i.closed;
  }

  visit_all_lem :
      (fuel : ℕ) (todo : List ℕ) (w : Walk)
      → ((a : ℕ) → In a todo → In a ids)
      → unseen w.seen ids < fuel
      → Settled w
      → IsWalk ids dependents rank 0 w
      → (w' : Walk) × (visit_all ids dependents fuel todo w ≡ some w')
        × IsWalk ids dependents rank 0 w'
        × Extends ids dependents rank w w'
        × ((a : ℕ) → In a todo → In a w'.ordered)
  unfolding visit_all
  visit_all_lem fuel [] w chosen enough s i =
      (w, refl, i, Extends-refl ids dependents rank w, λ a j. absurd j)
  visit_all_lem fuel (id ∷ todo) w chosen enough s i =
      let (v, e, iv, ev, met) =
        visit-Visited ids dependents rank fuel (suc (rank id)) id w (chosen id (inl refl))
          (λ f. omega arith) enough (settle (suc (rank id)) w s i) in
      let sv : Settled v =
        λ a j. elim (ev.new_seen a j) [ inl k ↦ k | inr k ↦ ev.keeps_ordered a (s a k) ] in
      let fewer = unseen-le w.seen v.seen ids ev.keeps_seen in
      let (x, f, ix, ex, all) =
        visit_all_lem fuel todo v (λ a j. chosen a (inr j)) (omega arith) sv (settle 0 v sv iv) in
      (
        x,
        rw e f,
        ix,
        Extends-trans ids dependents rank w v x ev ex,
        λ a j. elim j [
          | inl p ↦
              rw p (
                ex.keeps_ordered id (elim met [ inl k ↦ k | inr k ↦ ev.keeps_ordered id (s id k) ]))
          | inr k ↦ all a k
        ],
      )

  abbrev start : Walk
  start = record { seen = []; ordered = [] }

  start-IsWalk : IsWalk ids dependents rank 0 start
  start-IsWalk = record {
    waiting = λ a j. absurd j;
    seen = λ a j. absurd j;
    chosen = λ a j. absurd j;
    distinct = tt;
    closed = λ f a d j. absurd j;
  }

  walk_all :
      (w : Walk) × (visit_all ids dependents (suc (length ids)) ids start ≡ some w)
      × IsWalk ids dependents rank 0 w
      × Extends ids dependents rank start w
      × ((a : ℕ) → In a ids → In a w.ordered)
  walk_all =
      let most = unseen-le-length [] ids in
      visit_all_lem (suc (length ids)) ids start (λ a j. j) (omega arith) (λ a j. absurd j)
        start-IsWalk

-- orderProgramDeletes returns on every map of dependents, with or without cycles. It returns
-- exactly the ids it was given, and either the very list or one in which no id stands twice.
pub order_program_deletes_total :
    (ids : List ℕ) (dependents : Dependents)
    → (ordered : List ℕ) × (order_program_deletes ids dependents ≡ some ordered)
      × ((a : ℕ) → In a ordered ↔ In a ids)
      × (Distinct ordered ⊎ (ordered ≡ ids))
unfolding order_program_deletes
order_program_deletes_total ids dependents =
    elim (Bool-cases (leb (length ids) 1 || is_empty dependents)) [
      | inl e ↦ (ids, rw e refl, λ a. (λ i. i, λ i. i), inr refl)
      | inr e ↦
          let (w, f, i, _, all) = walk_all ids dependents (λ a. 0) in
          (w.ordered, rw (e, f) refl, λ a. (i.chosen a, all a), inl i.distinct)
    ]

-- Of two ids of the list, neither is the other's dependent where the early return is taken.
early_return :
    (ids : List ℕ) (dependents : Dependents) (rank : ℕ → ℕ)
    → ((a d : ℕ) → In d (dependents_of dependents a) → rank d < rank a)
    → (leb (length ids) 1 || is_empty dependents) ≡ true
    → (a d : ℕ) → In a ids
    → In d (dependents_of dependents a)
    → ¬ (In d ids)
unfolding is_empty dependents_of
early_return [] dependents rank acyclic h a d i j k = absurd i
early_return (x ∷ []) dependents rank acyclic h a d (inl e) j (inl f) =
    absurd (ground (arith, acyclic a d j))
early_return (x ∷ []) dependents rank acyclic h a d (inr e) j k = absurd e
early_return (x ∷ []) dependents rank acyclic h a d (inl e) j (inr f) = absurd f
early_return (x ∷ y ∷ ids) [] rank acyclic h a d i j k = absurd j
early_return (x ∷ y ∷ ids) (p ∷ dependents) rank acyclic h a d i j k = absurd (ground arith)

-- Where each dependent ranks below its owner, as programs that are loaded after their owners do,
-- every dependent that is itself to be deleted stands before its owner.
pub order_program_deletes-dependents_first :
    (ids : List ℕ) (dependents : Dependents) (rank : ℕ → ℕ)
    → ((a d : ℕ) → In d (dependents_of dependents a) → rank d < rank a)
    → (ordered : List ℕ) → order_program_deletes ids dependents ≡ some ordered
    → (a d : ℕ) → In a ids
    → In d (dependents_of dependents a)
    → In d ids
    → Precedes d a ordered
unfolding order_program_deletes
order_program_deletes-dependents_first ids dependents rank acyclic ordered h a d i j k =
    elim (Bool-cases (leb (length ids) 1 || is_empty dependents)) [
      | inl e ↦ absurd (early_return ids dependents rank acyclic e a d i j k)
      | inr e ↦
          let (w, f, iw, _, all) = walk_all ids dependents rank in
          rw (← (some-injective _ _ (rw (e, f) at h))) (iw.closed acyclic a d (all a i) j k)
    ]
