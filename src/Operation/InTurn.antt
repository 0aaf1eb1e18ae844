-- ===== src/Operation/InTurn.antt =====
-- A plan of single actions without undo runs its actions in turn.
use go_bpfman.Prelude.{String, ◌≡◌, refl, List, [], ◌∷◌, map, Option, none, some, inl, inr, arith}
use go_bpfman.Errors.{Err}
use go_bpfman.Exec.{Outcome, ok, err, panic, Exec, pure, ◌>>◌, Outcome-cases}
use go_bpfman.Operation.{
  Node, Progress, do_action, step, interpret, append_undos, execute_rollback, execute_groups,
  finish, start, run, run0, build_from, build,
}

-- An action with the label of its node.
abbrev pub Labelled : Type 0 → Type 0
Labelled Act = String × Act

module _ {W Act : Type 0} (Val : Type 0) (execute : Act → Exec W (Unit {0})) where
  abbrev pub nodes : List (Labelled Act) → List (Node W Act Val)
  nodes actions = map (λ a. do_action execute a.0 a.1) actions

  -- The actions one after the other, up to the first that fails.
  abbrev pub in_turn : List (Labelled Act) → Exec W (Unit {0})
  in_turn [] = pure tt
  in_turn (a ∷ rest) = execute a.1 >> in_turn rest

  -- How `interpret` hands on the outcome of its nodes.
  abbrev handed :
      Progress Act Val → Outcome (Unit {0}) × W → Outcome (Progress Act Val × Option Err) × W
  handed s (ok _, w) = (ok (s, none), w)
  handed s (err e, w) = (ok (s, some e), w)
  handed s (panic m, w) = (panic m, w)

  interpret-in_turn :
      (actions : List (Labelled Act)) (s : Progress Act Val) (w : W)
      → interpret (nodes actions) s w ≡ handed s (in_turn actions w)
  unfolding interpret step append_undos
  interpret-in_turn [] s w = refl
  interpret-in_turn (a ∷ rest) s w = elim (Outcome-cases (execute a.1 w)) [
    | inl (u, q) ↦ ground (arith, q, interpret-in_turn rest s (execute a.1 w).1)
    | inr (inl (e, q)) ↦ ground (arith, q)
    | inr (inr (m, q)) ↦ ground (arith, q)
  ]

  -- Run0 of a plan of DoAction nodes without undo executes the actions in turn, up to the first
  -- that fails, and returns that one's outcome with no rollback.
  pub run0-in_turn :
      (actions : List (Labelled Act)) (w : W) → run0 execute (nodes actions) w ≡ in_turn actions w
  unfolding run0 run finish execute_rollback execute_groups
  run0-in_turn actions w = elim (Outcome-cases (in_turn actions w)) [
    | inl (u, q) ↦ ground (arith, q, interpret-in_turn actions start w)
    | inr (inl (e, q)) ↦ ground (arith, q, interpret-in_turn actions start w)
    | inr (inr (m, q)) ↦ ground (arith, q, interpret-in_turn actions start w)
  ]

  build_from-nodes : (actions : List (Labelled Act)) → build_from [] (nodes actions) ≡ ok tt
  unfolding build_from
  build_from-nodes [] = refl
  build_from-nodes (a ∷ rest) = build_from-nodes rest

  -- Such a plan is always built: it has no Produce node.
  pub build-nodes : (actions : List (Labelled Act)) → build (nodes actions) ≡ ok (nodes actions)
  unfolding build
  build-nodes actions = rw (build_from-nodes actions) refl
