-- ===== src/Operation/Rollback.antt =====
-- What a failed plan leaves behind: `run` with undo actions that invert their nodes.
use mathlib.Core.List.{reverse, reverse-append, append_assoc, append-nil}
use go_bpfman.Prelude.{◌≡◌, ◌∙◌, List, [], ◌∷◌, ◌++◌, Option, none, some, inl, inr, arith, All}
use go_bpfman.Errors.{Err}
use go_bpfman.Exec.{Outcome, ok, err, Exec, Outcome-cases}
use go_bpfman.Operation.Steps.{interpret-ne-err}
use go_bpfman.Operation.{
  Bindings, Node, produce, do_node, try_node, Progress, grouped, append_undos, step, interpret,
  execute_group, execute_groups, start, run,
}

abbrev pub undo_actions :
    {Act Val : Type 0}
    → Option (Bindings Val → Outcome (List Act))
    → Bindings Val
    → Outcome (List Act)
undo_actions none b = ok []
undo_actions (some f) b = f b

module _ {W Act Val : Type 0} (execute : Act → Exec W (Unit {0})) where
  -- The undo actions, once computed, take the world back to what it was.
  abbrev pub Undoes : Option (Bindings Val → Outcome (List Act)) → Bindings Val → W → W → Type 0
  Undoes u b w' w =
      (acts : List Act) × (undo_actions u b ≡ ok acts)
      × (execute_group execute acts w' ≡ (ok tt, w))

  -- A node that a rollback can take back: where it fails it has done nothing, and where it
  -- completes its undo actions invert it. A Try node, which has no undo, must do nothing.
  abbrev pub Reversible : Node W Act Val → Type 0
  Reversible (do_node _ _ fn u) =
      ((b : Bindings Val) (w w' : W) → fn b w ≡ (ok tt, w') → Undoes u b w' w)
      × ((b : Bindings Val) (w w' : W) (e : Err) → fn b w ≡ (err e, w') → w' ≡ w)
  Reversible (produce key _ fn u) =
      ((b : Bindings Val) (w w' : W) (v : Val) → fn b w ≡ (ok v, w') → Undoes u ((key, v) ∷ b) w' w)
      × ((b : Bindings Val) (w w' : W) (e : Err) → fn b w ≡ (err e, w') → w' ≡ w)
  Reversible (try_node _ _ fn) = (b : Bindings Val) (w : W) → (fn b w).1 ≡ w

abbrev group_of : {Act : Type 0} → List Act → List (List Act)
group_of [] = []
group_of (a ∷ acts) = (a ∷ acts) ∷ []

append_undos-ok :
    {Act Val : Type 0} (undos : List (List Act)) (u : Option (Bindings Val → Outcome (List Act)))
    (b : Bindings Val) (acts : List Act)
    → undo_actions u b ≡ ok acts
    → append_undos undos u b ≡ ok (undos ++ group_of acts)
unfolding append_undos grouped
append_undos-ok undos none b acts h = ground (arith, append-nil undos)
append_undos-ok undos (some f) b [] h = rw h (rw append-nil)
append_undos-ok undos (some f) b (a ∷ acts) h = rw h

module _ {W Act : Type 0} (execute : Act → Exec W (Unit {0})) where
  execute_groups-append :
      (gs hs : List (List Act)) (w : W) (v : W)
      → execute_groups execute gs w ≡ (ok tt, v)
      → execute_groups execute (gs ++ hs) w ≡ execute_groups execute hs v
  unfolding execute_groups
  execute_groups-append [] hs w v h = cc
  execute_groups-append (g ∷ gs) hs w v h =
      ground (arith, execute_groups-append gs hs (execute_group execute g w).1 v)

  execute_groups-group_of :
      (acts : List Act) (w v : W)
      → execute_group execute acts w ≡ (ok tt, v)
      → execute_groups execute (reverse (group_of acts)) w ≡ (ok tt, v)
  unfolding execute_groups
  execute_groups-group_of [] w v h = cc
  execute_groups-group_of (a ∷ acts) w v h = ground arith

  execute_groups-nil : (w v : W) → w ≡ v → execute_groups execute (reverse []) w ≡ (ok tt, v)
  unfolding execute_groups
  execute_groups-nil w v h = cc

  -- Rolling back what came second, then what came first.
  rollback_trans :
      (gs hs : List (List Act)) (w v u : W)
      → execute_groups execute (reverse hs) w ≡ (ok tt, v)
      → execute_groups execute (reverse gs) v ≡ (ok tt, u)
      → execute_groups execute (reverse (gs ++ hs)) w ≡ (ok tt, u)
  rollback_trans gs hs w v u h k =
      rw (reverse-append gs hs) (execute_groups-append (reverse hs) (reverse gs) w v h ∙ k)

module _ {W Act Val : Type 0} (execute : Act → Exec W (Unit {0})) where
  -- The undo groups that were added, and that they take `w'` back to `w`.
  abbrev Added : Progress Act Val → Progress Act Val → W → W → Type 0
  Added s s' w w' =
      (gs : List (List Act)) × (s'.undos ≡ s.undos ++ gs)
      × (execute_groups execute (reverse gs) w' ≡ (ok tt, w))

  step_completed :
      (n : Node W Act Val) (s s' : Progress Act Val) (w w' : W)
      → Reversible execute n
      → step n s w ≡ (ok s', w')
      → Added s s' w w'
  unfolding step
  step_completed (do_node l t fn u) s s' w w' r h = elim (Outcome-cases (fn s.bindings w)) [
    | inl (_, e) ↦
        let (acts, computed, undone) = r.0 s.bindings w (fn s.bindings w).1 e in
        let lem = append_undos-ok s.undos u s.bindings acts computed in
        (
          group_of acts,
          ground (arith, e, lem),
          execute_groups-group_of execute acts w' w (ground (arith, e, lem)),
        )
    | inr (inl (x, e)) ↦ absurd (ground (arith, e))
    | inr (inr (m, e)) ↦ absurd (ground (arith, e))
  ]
  step_completed (produce key t fn u) s s' w w' r h = elim (Outcome-cases (fn s.bindings w)) [
    | inl (v, e) ↦
        let (acts, computed, undone) = r.0 s.bindings w (fn s.bindings w).1 v e in
        let lem = append_undos-ok s.undos u ((key, v) ∷ s.bindings) acts computed in
        (
          group_of acts,
          ground (arith, e, lem),
          execute_groups-group_of execute acts w' w (ground (arith, e, lem)),
        )
    | inr (inl (x, e)) ↦ absurd (ground (arith, e))
    | inr (inr (m, e)) ↦ absurd (ground (arith, e))
  ]
  step_completed (try_node l t fn) s s' w w' r h =
      let kept = r s.bindings w in
      (
        [],
        ground (arith, append-nil s.undos, kept),
        execute_groups-nil execute w' w (ground (arith, kept)),
      )

  step_failed :
      (n : Node W Act Val) (s : Progress Act Val) (w w' : W) (e : Err)
      → Reversible execute n
      → step n s w ≡ (err e, w')
      → w' ≡ w
  unfolding step
  step_failed (do_node l t fn u) s w w' e r h = elim (Outcome-cases (fn s.bindings w)) [
    | inl (_, q) ↦
        let (acts, computed, undone) = r.0 s.bindings w (fn s.bindings w).1 q in
        absurd (ground (arith, q, append_undos-ok s.undos u s.bindings acts computed))
    | inr (inl (x, q)) ↦ ground (arith, q, r.1 s.bindings w w' e)
    | inr (inr (m, q)) ↦ absurd (ground (arith, q))
  ]
  step_failed (produce key t fn u) s w w' e r h = elim (Outcome-cases (fn s.bindings w)) [
    | inl (v, q) ↦
        let (acts, computed, undone) = r.0 s.bindings w (fn s.bindings w).1 v q in
        absurd (ground (arith, q, append_undos-ok s.undos u ((key, v) ∷ s.bindings) acts computed))
    | inr (inl (x, q)) ↦ ground (arith, q, r.1 s.bindings w w' e)
    | inr (inr (m, q)) ↦ absurd (ground (arith, q))
  ]
  step_failed (try_node l t fn) s w w' e r h = absurd (ground (arith, r s.bindings w))

  interpret_failed :
      (ns : List (Node W Act Val)) (s s' : Progress Act Val) (w w' : W) (e : Err)
      → All (Reversible execute) ns
      → interpret ns s w ≡ (ok (s', some e), w')
      → Added s s' w w'
  unfolding interpret
  interpret_failed [] s s' w w' e rs h = absurd (ground arith)
  interpret_failed (n ∷ ns) s s' w w' e rs h = elim (Outcome-cases (step n s w)) [
    | inl (t, q) ↦
        let v : W = (step n s w).1 in
        let (gs, first, back) = step_completed n s t w v rs.0 q in
        let (hs, second, back') = interpret_failed ns t s' v w' e rs.1 (ground (arith, q)) in
        (
          gs ++ hs,
          ground (arith, append_assoc s.undos gs hs),
          rollback_trans execute gs hs w' v w back' back,
        )
    | inr (inl (x, q)) ↦ (
      [],
      ground (arith, q, append-nil s.undos),
      execute_groups-nil execute w' w (ground (arith, q, step_failed n s w w' e rs.0)),
    )
    | inr (inr (m, q)) ↦ absurd (ground (arith, q))
  ]

  -- If every node of a plan is reversible, a run of the plan that returns an error leaves the
  -- world as it was.
  pub run_atomic :
      (plan : List (Node W Act Val)) (w w' : W) (e : Err)
      → All (Reversible execute) plan
      → run execute plan w ≡ (err e, w')
      → w' ≡ w
  unfolding run
  run_atomic plan w w' e rs h = elim (Outcome-cases (interpret plan start w)) [
    | inl ((s, none), q) ↦ absurd (ground (arith, q))
    | inl ((s, some x), q) ↦
        let (gs, undos, back) = interpret_failed plan start s w (interpret plan start w).1 x rs q in
        ground (arith, q, undos, back)
    | inr (inl (x, q)) ↦ absurd (interpret-ne-err plan start w x q)
    | inr (inr (m, q)) ↦ absurd (ground (arith, q))
  ]
