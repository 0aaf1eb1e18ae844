-- ===== src/Operation/Steps.antt =====
-- Where a run stops: the nodes before the failed one complete, the nodes after it never start.
use mathlib.Core.Path.{subst}
use go_bpfman.Prelude.{◌≡◌, refl, List, [], ◌∷◌, ◌++◌, none, some, inl, inr, arith}
use go_bpfman.Errors.{Err}
use go_bpfman.Exec.{ok, err, Exec, dropped, Outcome-cases}
use go_bpfman.Operation.{
  Node, Progress, step, interpret, execute_group, execute_groups, execute_rollback, finish, start,
  run,
}

module _ {W Act Val : Type 0} where
  pub interpret-ne-err :
      (ns : List (Node W Act Val)) (s : Progress Act Val) (w : W) (e : Err)
      → ¬ (interpret ns s w ≡ (err e, (interpret ns s w).1))
  unfolding interpret
  interpret-ne-err [] s w e h = ground arith
  interpret-ne-err (n ∷ ns) s w e h = elim (Outcome-cases (step n s w)) [
    | inl (t, q) ↦ interpret-ne-err ns t (step n s w).1 e (ground (arith, q))
    | inr (inl (x, q)) ↦ absurd (ground (arith, q))
    | inr (inr (m, q)) ↦ absurd (ground (arith, q))
  ]

  -- The nodes `pre` completed, and the next node returned the error `e`.
  pub record FailsAt (plan : List (Node W Act Val)) (s : Progress Act Val) (w : W) (e : Err)
      (t : Progress Act Val) (v : W) : Type 0 where
    pub pre : List (Node W Act Val)
    pub failed : Node W Act Val
    pub post : List (Node W Act Val)
    pub before : W
    pub split : plan ≡ pre ++ failed ∷ post
    pub completed : interpret pre s w ≡ (ok (t, none), before)
    pub stopped : step failed t before ≡ (err e, v)

  interpret-FailsAt :
      (ns : List (Node W Act Val)) (s t : Progress Act Val) (w v : W) (e : Err)
      → interpret ns s w ≡ (ok (t, some e), v)
      → FailsAt ns s w e t v
  unfolding interpret
  interpret-FailsAt [] s t w v e h = absurd (ground arith)
  interpret-FailsAt (n ∷ ns) s t w v e h = elim (Outcome-cases (step n s w)) [
    | inl (s', q) ↦
        let ih = interpret-FailsAt ns s' t (step n s w).1 v e (ground (arith, q)) in
        record {
          pre = n ∷ ih.pre;
          failed = ih.failed;
          post = ih.post;
          before = ih.before;
          split = ground (arith, ih.split);
          completed = ground (arith, q, ih.completed);
          stopped = ih.stopped;
        }
    | inr (inl (x, q)) ↦ record {
      pre = [];
      failed = n;
      post = ns;
      before = w;
      split = refl;
      completed = ground (arith, q);
      stopped = ground (arith, q);
    }
    | inr (inr (m, q)) ↦ absurd (ground (arith, q))
  ]

  -- When a run returns an error, the plan splits at the node that returned that error: the nodes
  -- before it completed in order, the nodes after it did not run, and the final world is the one
  -- that the rollback of the groups collected so far leaves.
  pub run-FailsAt :
      (execute : Act → Exec W (Unit {0})) (plan : List (Node W Act Val)) (w w' : W) (e : Err)
      → run execute plan w ≡ (err e, w')
      → (s : Progress Act Val) × (v : W) × FailsAt plan start w e s v
        × ((execute_rollback execute s.undos v).1 ≡ w')
  unfolding run
  run-FailsAt execute plan w w' e h = elim (Outcome-cases (interpret plan start w)) [
    | inl ((s, none), q) ↦ absurd (ground (arith, q))
    | inl ((s, some x), q) ↦
        let v = (interpret plan start w).1 in
        let same : x ≡ e = ground (arith, q) in
        (
          s,
          v,
          subst (λ y. FailsAt plan start w y s v) same (interpret-FailsAt plan start s w v x q),
          ground (arith, q),
        )
    | inr (inl (x, q)) ↦ absurd (interpret-ne-err plan start w x q)
    | inr (inr (m, q)) ↦ absurd (ground (arith, q))
  ]

module _ {W Act Val : Type 0} (execute : Act → Exec W (Unit {0})) where
  -- The end of a run whose rollback came through.
  pub run_failed :
      (plan : List (Node W Act Val)) (w v u : W) (s : Progress Act Val) (e : Err)
      → interpret plan start w ≡ (ok (s, some e), v)
      → execute_rollback execute s.undos v ≡ (ok tt, u)
      → run execute plan w ≡ (err e, u)
  unfolding run finish
  run_failed plan w v u s e p q = ground (arith, p, q)

module _ {W Act : Type 0} (execute : Act → Exec W (Unit {0})) where
  -- The rollback of two nodes with an undo action each.
  pub rollback_pair :
      (a b : Act) (u v w : W)
      → dropped (execute b u) ≡ (ok tt, v)
      → dropped (execute a v) ≡ (ok tt, w)
      → execute_rollback execute ((a ∷ []) ∷ (b ∷ []) ∷ []) u ≡ (ok tt, w)
  unfolding execute_rollback execute_groups execute_group
  rollback_pair a b u v w p q = elim (Outcome-cases (execute b u)) [
    | inl (x, i) ↦ elim (Outcome-cases (execute a v)) [
      | inl (y, j) ↦ ground (arith, i, j, p, q)
      | inr (inl (e, j)) ↦ ground (arith, i, j, p, q)
      | inr (inr (m, j)) ↦ ground (arith, i, j, p, q)
    ]
    | inr (inl (d, i)) ↦ elim (Outcome-cases (execute a v)) [
      | inl (y, j) ↦ ground (arith, i, j, p, q)
      | inr (inl (e, j)) ↦ ground (arith, i, j, p, q)
      | inr (inr (m, j)) ↦ ground (arith, i, j, p, q)
    ]
    | inr (inr (m, i)) ↦ ground (arith, i, p)
  ]
