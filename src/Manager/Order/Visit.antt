-- ===== src/Manager/Order/Visit.antt =====
-- One visit of the walk: it returns on enough fuel, and what it leaves behind.
use go_bpfman.Prelude.{
  ℕ, zero, suc, ◌<◌, ◌≡◌, refl, ◌⊎◌, inl, inr, List, [], ◌∷◌, Option, some, In, In-append_right,
  Bool-cases, arith,
}
use go_bpfman.Manager.Order.{
  Dependents, dependents_of, contains, Walk, visit_selected, finish, visit,
}
use go_bpfman.Manager.Order.Members.{contains-iff-In, unseen, unseen-le, unseen-lt}
use go_bpfman.Manager.Order.Walks.{
  Acyclic, IsWalk, Extends, Extends-refl, Extends-trans, marked, marked-IsWalk, last, last-IsWalk,
  last-Extends,
}

module _ (ids : List ℕ) (dependents : Dependents) (rank : ℕ → ℕ) where
  abbrev pub Visited : ℕ → Walk → (Walk → Type 0) → Option Walk → Type 0
  Visited above w P r =
      (w' : Walk) × (r ≡ some w')
      × IsWalk ids dependents rank above w'
      × Extends ids dependents rank w w'
      × P w'

  -- The loop over the dependents, by what each visit does.
  visit_selected-Visited :
      (fuel above : ℕ) (todo : List ℕ) (w : Walk)
      → ((d : ℕ) (v : Walk)
          → In d ids
          → (Acyclic ids dependents rank → rank d < above)
          → unseen v.seen ids < fuel
          → IsWalk ids dependents rank above v
          → Visited above v (λ v'. In d v'.ordered ⊎ In d v.seen) (visit ids dependents fuel d v))
      → ((d : ℕ) → In d todo → Acyclic ids dependents rank → rank d < above)
      → unseen w.seen ids < fuel
      → IsWalk ids dependents rank above w
      → Visited above w
          (λ w'. (d : ℕ) → In d todo → In d ids → In d w'.ordered ⊎ In d w.seen)
          (visit_selected ids dependents (visit ids dependents fuel) todo w)
  unfolding visit_selected
  visit_selected-Visited fuel above [] w one below enough i =
      (w, refl, i, Extends-refl ids dependents rank w, λ d j. absurd j)
  visit_selected-Visited fuel above (d ∷ ds) w one below enough i =
      elim (Bool-cases (contains ids d)) [
        | inl h ↦
            let (v, e, iv, ev, pv) =
              one d w ((contains-iff-In ids d).0 h) (below d (inl refl)) enough i in
            let fewer = unseen-le w.seen v.seen ids ev.keeps_seen in
            let (x, f, ix, ex, px) =
              visit_selected-Visited fuel above ds v one (λ c j. below c (inr j)) (omega arith)
                iv in
            (
              x,
              rw (h, e) f,
              ix,
              Extends-trans ids dependents rank w v x ev ex,
              λ c j k. elim j [
                | inl p ↦ rw p (elim pv [ inl l ↦ inl (ex.keeps_ordered d l) | inr l ↦ inr l ])
                | inr l ↦ elim (px c l k) [
                  | inl m ↦ inl m
                  | inr m ↦ elim (ev.new_seen c m) [
                    | inl n ↦ inl (ex.keeps_ordered c n)
                    | inr n ↦ inr n
                  ]
                ]
              ],
            )
        | inr h ↦
            let (x, f, ix, ex, px) =
              visit_selected-Visited fuel above ds w one (λ c j. below c (inr j)) enough i in
            (
              x,
              rw h f,
              ix,
              ex,
              λ c j k. elim j [
                | inl p ↦ absurd (cc (h, (contains-iff-In ids d).1 (rw p at k)))
                | inr l ↦ px c l k
              ],
            )
      ]

  pub visit-Visited :
      (fuel above id : ℕ) (w : Walk)
      → In id ids
      → (Acyclic ids dependents rank → rank id < above)
      → unseen w.seen ids < fuel
      → IsWalk ids dependents rank above w
      → Visited above w (λ w'. In id w'.ordered ⊎ In id w.seen) (visit ids dependents fuel id w)
  unfolding visit finish
  visit-Visited zero above id w chosen lower enough i = absurd (omega arith)
  visit-Visited (suc fuel) above id w chosen lower enough i =
      elim (Bool-cases (contains w.seen id)) [
        | inl h ↦ (
          w,
          rw h refl,
          i,
          Extends-refl ids dependents rank w,
          inr ((contains-iff-In w.seen id).0 h),
        )
        | inr h ↦
            let new : ¬ (In id w.seen) = λ j. cc (h, (contains-iff-In w.seen id).1 j) in
            let fewer = unseen-lt w.seen ids id chosen h in
            let (v, e, iv, ev, met) =
              visit_selected-Visited fuel (rank id) (dependents_of dependents id)
                (marked ids dependents rank above id w i new) (visit-Visited fuel (rank id))
                (λ d j f. f id d j) (omega arith)
                (marked-IsWalk ids dependents rank above id w i new lower) in
            (
              last ids dependents rank above id w i new v iv ev chosen lower met,
              rw (h, e) refl,
              last-IsWalk ids dependents rank above id w i new v iv ev chosen lower met,
              last-Extends ids dependents rank above id w i new v iv ev chosen lower met,
              inl (In-append_right id v.ordered (id ∷ []) (inl refl)),
            )
      ]
