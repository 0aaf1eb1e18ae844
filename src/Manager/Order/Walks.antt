-- ===== src/Manager/Order/Walks.antt =====
-- What holds of a walk between two visits, and how a visit marks an id and orders it last.
use go_bpfman.Prelude.{
  ℕ, ◌≤◌, ◌<◌, refl, ◌⊎◌, inl, inr, List, [], ◌∷◌, ◌++◌, In, In-append_left, In-append_right, arith,
}
use go_bpfman.Manager.Order.{Dependents, dependents_of, Walk}
use go_bpfman.Manager.Order.Members.{
  Precedes, Precedes-append, Precedes-last, Distinct, Distinct-snoc, In-append_inv,
}

module _ (ids : List ℕ) (dependents : Dependents) (rank : ℕ → ℕ) where
  -- Every dependent ranks below its owner.
  abbrev pub Acyclic : Type 0
  Acyclic = (a d : ℕ) → In d (dependents_of dependents a) → rank d < rank a

  -- Each selected dependent of an ordered id stands before it.
  abbrev pub IsClosed : List ℕ → Type 0
  IsClosed ordered =
      (a d : ℕ) → In a ordered → In d (dependents_of dependents a) → In d ids → Precedes d a ordered

  -- Between two visits: an id that is seen is ordered, or it waits, and then it has a rank of at least
  -- `above` where there is no cycle.
  pub record IsWalk (above : ℕ) (w : Walk) : Type 0 where
    pub waiting : (a : ℕ) → In a w.seen → In a w.ordered ⊎ (Acyclic → above ≤ rank a)
    pub seen : (a : ℕ) → In a w.ordered → In a w.seen
    pub chosen : (a : ℕ) → In a w.ordered → In a ids
    pub distinct : Distinct w.ordered
    pub closed : Acyclic → IsClosed w.ordered

  -- From one walk to a later one nothing is lost, what is newly seen is ordered, and what is newly
  -- ordered was not seen.
  pub record Extends (w w' : Walk) : Type 0 where
    pub keeps_seen : (a : ℕ) → In a w.seen → In a w'.seen
    pub keeps_ordered : (a : ℕ) → In a w.ordered → In a w'.ordered
    pub new_seen : (a : ℕ) → In a w'.seen → In a w'.ordered ⊎ In a w.seen
    pub new_ordered : (a : ℕ) → In a w'.ordered → In a w.ordered ⊎ ¬ (In a w.seen)

  pub Extends-refl : (w : Walk) → Extends w w
  Extends-refl w = record {
    keeps_seen = λ a i. i;
    keeps_ordered = λ a i. i;
    new_seen = λ a i. inr i;
    new_ordered = λ a i. inl i;
  }

  pub Extends-trans : (u v w : Walk) → Extends u v → Extends v w → Extends u w
  Extends-trans u v w e f = record {
    keeps_seen = λ a i. f.keeps_seen a (e.keeps_seen a i);
    keeps_ordered = λ a i. f.keeps_ordered a (e.keeps_ordered a i);
    new_seen = λ a i. elim (f.new_seen a i) [
      | inl j ↦ inl j
      | inr j ↦ elim (e.new_seen a j) [ inl k ↦ inl (f.keeps_ordered a k) | inr k ↦ inr k ]
    ];
    new_ordered = λ a i. elim (f.new_ordered a i) [
      | inl j ↦ e.new_ordered a j
      | inr n ↦ inr (λ k. n (e.keeps_seen a k))
    ];
  }

  module _ (above id : ℕ) (w : Walk) (i : IsWalk above w) (new : ¬ (In id w.seen)) where
    abbrev pub marked : Walk
    marked = record { seen = id ∷ w.seen; ordered = w.ordered }

    pub marked-IsWalk : (Acyclic → rank id < above) → IsWalk (rank id) marked
    marked-IsWalk lower = record {
      waiting = λ a j. elim j [
        | inl e ↦ inr (λ f. ground (arith, e))
        | inr k ↦ elim (i.waiting a k) [
          | inl l ↦ inl l
          | inr l ↦ inr (λ f. omega (arith, lower f, l f))
        ]
      ];
      seen = λ a j. inr (i.seen a j);
      chosen = i.chosen;
      distinct = i.distinct;
      closed = i.closed;
    }

    module _ (v : Walk) (iv : IsWalk (rank id) v) (ev : Extends marked v) (chosen : In id ids)
        (lower : Acyclic → rank id < above)
        (met : (d : ℕ)
          → In d (dependents_of dependents id)
          → In d ids
          → In d v.ordered ⊎ In d marked.seen) where
      -- Where there is no cycle no dependent waits.
      before : Acyclic → (d : ℕ) → In d (dependents_of dependents id) → In d ids → In d v.ordered
      before f d j k = elim (met d j k) [
        | inl l ↦ l
        | inr l ↦ elim ((marked-IsWalk lower).waiting d l) [
          | inl m ↦ ev.keeps_ordered d m
          | inr m ↦ absurd (omega (arith, m f, f id d j))
        ]
      ]

      abbrev pub last : Walk
      last = record v { ordered = v.ordered ++ id ∷ [] }

      pub last-Extends : Extends w last
      last-Extends = record {
        keeps_seen = λ a j. ev.keeps_seen a (inr j);
        keeps_ordered = λ a j. In-append_left a v.ordered (id ∷ []) (ev.keeps_ordered a j);
        new_seen = λ a j. elim (ev.new_seen a j) [
          | inl k ↦ inl (In-append_left a v.ordered (id ∷ []) k)
          | inr k ↦ elim k [
            | inl e ↦ inl (In-append_right a v.ordered (id ∷ []) (inl e))
            | inr l ↦ inr l
          ]
        ];
        new_ordered = λ a j. elim (In-append_inv a v.ordered (id ∷ []) j) [
          | inl k ↦ elim (ev.new_ordered a k) [ inl l ↦ inl l | inr n ↦ inr (λ l. n (inr l)) ]
          | inr k ↦ elim k [ inl e ↦ inr (rw e new) | inr l ↦ absurd l ]
        ];
      }

      pub last-IsWalk : IsWalk above last
      last-IsWalk = record {
        waiting = λ a j. elim (last-Extends.new_seen a j) [
          | inl k ↦ inl k
          | inr k ↦ elim (i.waiting a k) [
            | inl l ↦ inl (last-Extends.keeps_ordered a l)
            | inr l ↦ inr l
          ]
        ];
        seen = λ a j. elim (In-append_inv a v.ordered (id ∷ []) j) [
          | inl k ↦ iv.seen a k
          | inr k ↦ elim k [ inl e ↦ rw e (ev.keeps_seen id (inl refl)) | inr l ↦ absurd l ]
        ];
        chosen = λ a j. elim (In-append_inv a v.ordered (id ∷ []) j) [
          | inl k ↦ iv.chosen a k
          | inr k ↦ elim k [ inl e ↦ rw e chosen | inr l ↦ absurd l ]
        ];
        distinct =
            Distinct-snoc id v.ordered iv.distinct
              λ j. elim (ev.new_ordered id j) [ inl k ↦ new (i.seen id k) | inr n ↦ n (inl refl) ];
        closed = λ f a d j k l. elim (In-append_inv a v.ordered (id ∷ []) j) [
          | inl m ↦ Precedes-append d a v.ordered (id ∷ []) (iv.closed f a d m k l)
          | inr m ↦ elim m [
            | inl e ↦ rw e (Precedes-last d id v.ordered (before f d (rw e at k) l))
            | inr n ↦ absurd n
          ]
        ];
      }
