-- ===== src/Operation.antt =====
-- manager/operation: plans of typed nodes and their interpreter (node.go, run.go, types.go).
-- The world, the actions and the bound values are parameters; the executor is an argument. Go's
-- `any` is the type `Val`, and the type assertion of `Get` a partial projection out of it.
-- Debug logging is left out.
pub mod Steps
pub mod Rollback
pub mod Binding
pub mod InTurn
use mathlib.Core.List.{reverse}
use text.Mathlib.Text.{◌==◌}
use go_bpfman.Prelude.{
  String, Bool, true, false, ◌||◌, List, [], ◌∷◌, ◌++◌, Option, none, some, if◌then◌else◌,
}
use go_bpfman.Errors.{Err}
use go_bpfman.Exec.{Outcome, ok, err, panic, Exec}

-- Bindings.m: an assignment shadows what the key held before.
abbrev pub Bindings : Type 0 → Type 0
Bindings Val = List (String × Val)

unfoldable pub lookup : {Val : Type 0} → String → Bindings Val → Option Val
lookup k [] = none
lookup k ((j, v) ∷ b) = if j == k then some v else lookup k b

asserted : {T : Type 0} → Option T → Outcome T
asserted none = panic "operation.Get: key has another type"
asserted (some t) = ok t

found : {Val T : Type 0} → (Val → Option T) → Option Val → Outcome T
found assert none = panic "operation.Get: key not bound"
found assert (some v) = asserted (assert v)

unfoldable pub get : {Val T : Type 0} → (Val → Option T) → String → Bindings Val → Outcome T
unfolding found asserted lookup
get assert key b = found assert (lookup key b)

-- node: the fields that matter for each flavour.
pub data Node (W Act Val : Type 0) : Type 0 where
  produce :
      (bind_key : String) (target : String) (fn : Bindings Val → Exec W Val)
      (undo_fn : Option (Bindings Val → Outcome (List Act)))
      → Node W Act Val
  do_node :
      (label target : String) (fn : Bindings Val → Exec W (Unit {0}))
      (undo_fn : Option (Bindings Val → Outcome (List Act)))
      → Node W Act Val
  try_node : (label target : String) (fn : Bindings Val → Exec W (Unit {0})) → Node W Act Val

-- DoAction, with no option: a Do node that executes one action and has no undo.
abbrev pub do_action :
    {W Act Val : Type 0} → (Act → Exec W (Unit {0})) → String → Act → Node W Act Val
do_action execute label a = do_node label "" (λ _. execute a) none

grouped : {Act : Type 0} → List (List Act) → Outcome (List Act) → Outcome (List (List Act))
grouped undos (ok []) = ok undos
grouped undos (ok (a ∷ rest)) = ok (undos ++ (a ∷ rest) ∷ [])
grouped undos (err e) = err e
grouped undos (panic m) = panic m

module _ {Act Val : Type 0} where
  -- appendUndos: a node with no undo, or with no undo actions, adds no group.
  append_undos :
      List (List Act)
      → Option (Bindings Val → Outcome (List Act))
      → Bindings Val
      → Outcome (List (List Act))
  unfolding grouped
  append_undos undos none b = ok undos
  append_undos undos (some f) b = grouped undos (f b)

-- What the loop carries: the undo groups in forward order, and the bindings.
pub record Progress (Act Val : Type 0) : Type 0 where
  pub undos : List (List Act)
  pub bindings : Bindings Val

module _ {Act Val : Type 0} where
  abbrev with_undos : Bindings Val → Outcome (List (List Act)) → Outcome (Progress Act Val)
  with_undos b (ok undos) = ok (record { undos = undos; bindings = b })
  with_undos b (err e) = err e
  with_undos b (panic m) = panic m

module _ {W Act Val : Type 0} where
  -- The body of the loop of `interpret`: `err` is the assignment to `opErr`.
  unfoldable pub step : Node W Act Val → Progress Act Val → Exec W (Progress Act Val)
  unfolding append_undos
  step (do_node _ _ fn u) s w =
      let (r, w') = fn s.bindings w in
      elim r [
        | ok _ ↦ (with_undos s.bindings (append_undos s.undos u s.bindings), w')
        | err e ↦ (err e, w')
        | panic m ↦ (panic m, w')
      ]
  step (produce key _ fn u) s w =
      let (r, w') = fn s.bindings w in
      elim r [
        | ok v ↦
            let b : Bindings Val = (key, v) ∷ s.bindings in
            (with_undos b (append_undos s.undos u b), w')
        | err e ↦ (err e, w')
        | panic m ↦ (panic m, w')
      ]
  step (try_node _ _ fn) s w =
      let (r, w') = fn s.bindings w in
      elim r [ ok _ ↦ (ok s, w') | err e ↦ (ok s, w') | panic m ↦ (panic m, w') ]

  -- interpret: the progress made, and the first error, after which the rest is skipped.
  unfoldable pub interpret :
      List (Node W Act Val) → Progress Act Val → Exec W (Progress Act Val × Option Err)
  interpret [] s w = (ok (s, none), w)
  interpret (n ∷ ns) s w =
      let (r, w') = step n s w in
      elim r [ ok s' ↦ interpret ns s' w' | err e ↦ (ok (s, some e), w') | panic m ↦ (panic m, w') ]

module _ {W Act : Type 0} (execute : Act → Exec W (Unit {0})) where
  -- One group of undo actions: a failure is logged and the next action is executed.
  unfoldable pub execute_group : List Act → Exec W (Unit {0})
  execute_group [] w = (ok tt, w)
  execute_group (a ∷ rest) w =
      let (r, w') = execute a w in
      elim r [
        | ok _ ↦ execute_group rest w'
        | err e ↦ execute_group rest w'
        | panic m ↦ (panic m, w')
      ]

  pub execute_groups : List (List Act) → Exec W (Unit {0})
  unfolding execute_group
  execute_groups [] w = (ok tt, w)
  execute_groups (g ∷ gs) w =
      let (r, w') = execute_group g w in
      elim r [ ok _ ↦ execute_groups gs w' | err e ↦ (err e, w') | panic m ↦ (panic m, w') ]

  -- executeRollback: from the last group to the first.
  pub execute_rollback : List (List Act) → Exec W (Unit {0})
  unfolding execute_groups
  execute_rollback undos = execute_groups (reverse undos)

abbrev pub start : {Act Val : Type 0} → Progress Act Val
start = record { undos = []; bindings = [] }

module _ {W Act Val : Type 0} (execute : Act → Exec W (Unit {0})) where
  -- The end of `Run`: roll back on an error, hand the bindings over otherwise.
  pub finish : Progress Act Val → Option Err → Exec W (Bindings Val)
  unfolding execute_rollback
  finish s none w = (ok s.bindings, w)
  finish s (some e) w =
      let (r, w') = execute_rollback execute s.undos w in
      elim r [ ok _ ↦ (err e, w') | err _ ↦ (err e, w') | panic m ↦ (panic m, w') ]

  -- Run
  unfoldable pub run : List (Node W Act Val) → Exec W (Bindings Val)
  unfolding finish interpret step
  run plan w =
      let (r, w') = interpret plan start w in
      elim r [ ok (s, op_err) ↦ finish s op_err w' | err e ↦ (err e, w') | panic m ↦ (panic m, w') ]

  -- Run0
  unfoldable pub run0 : List (Node W Act Val) → Exec W (Unit {0})
  unfolding run
  run0 plan w =
      let (r, w') = run plan w in
      elim r [ ok _ ↦ (ok tt, w') | err e ↦ (err e, w') | panic m ↦ (panic m, w') ]

contains : String → List String → Bool
contains k [] = false
contains k (j ∷ seen) = j == k || contains k seen

module _ {W Act Val : Type 0} where
  build_from : List String → List (Node W Act Val) → Outcome (Unit {0})
  unfolding contains
  build_from seen [] = ok tt
  build_from seen (produce key _ _ _ ∷ ns) =
      let rest = build_from (key ∷ seen) ns in
      if contains key seen then panic "operation.Build: duplicate Produce key" else rest
  build_from seen (do_node _ _ _ _ ∷ ns) = build_from seen ns
  build_from seen (try_node _ _ _ ∷ ns) = build_from seen ns

  abbrev built : List (Node W Act Val) → Outcome (Unit {0}) → Outcome (List (Node W Act Val))
  built plan (ok _) = ok plan
  built plan (err e) = err e
  built plan (panic m) = panic m

  -- Build: a plan binds no key twice.
  unfoldable pub build : List (Node W Act Val) → Outcome (List (Node W Act Val))
  unfolding build_from
  build nodes = built nodes (build_from [] nodes)
