-- ===== src/Examples/Plans.antt =====
-- Plans over a world that is a stack of numbers; the one undo action takes the top off.
use go_bpfman.Prelude.{◌≡◌, refl, ◌↔◌, ℕ, List, [], ◌∷◌, none, some, arith}
use go_bpfman.Errors.{plain}
use go_bpfman.Exec.{ok, err, Exec}
use go_bpfman.Operation.{
  execute_group, Bindings, Node, produce, do_node, try_node, Progress, start, run, interpret,
  execute_rollback, build, lookup,
}
use go_bpfman.Operation.Steps.{FailsAt, run-FailsAt}
use go_bpfman.Operation.Rollback.{Reversible, run_atomic}
use go_bpfman.Operation.Binding.{keys, Distinct, build-iff_Distinct, produced_value_kept}

abbrev execute : Unit {0} → Exec (List ℕ) (Unit {0})
execute _ [] = (err (plain "empty"), [])
execute _ (x ∷ w) = (ok tt, w)

abbrev push : ℕ → Node (List ℕ) (Unit {0}) ℕ
push n = produce "top" "" (λ _ w. (ok n, n ∷ w)) (some (λ _. ok (tt ∷ [])))

abbrev refuse : Node (List ℕ) (Unit {0}) ℕ
refuse = do_node "refuse" "" (λ _ w. (err (plain "refused"), w)) none

abbrev plan : List (Node (List ℕ) (Unit {0}) ℕ)
plan = push 3 ∷ refuse ∷ []

abbrev stack : List ℕ
stack = 8 ∷ []

abbrev stack_after : List ℕ
stack_after = (run execute plan stack).1

run_fails : run execute plan stack ≡ (err (plain "refused"), stack_after)
unfolding run
run_fails = refl

push-Reversible : (n : ℕ) → Reversible execute (push n)
unfolding execute_group
push-Reversible n =
    (λ b w w' v e. (tt ∷ [], refl, ground arith), λ b w w' x e. absurd (ground (arith, e)))

refuse-Reversible : Reversible execute refuse
refuse-Reversible = (λ b w w' e. absurd (ground (arith, e)), λ b w w' x e. ground (arith, e))

run_atomic_example : stack_after ≡ stack
run_atomic_example =
    run_atomic execute plan stack stack_after (plain "refused")
      (push-Reversible 3, (refuse-Reversible, tt)) run_fails

run-FailsAt_example :
    (s : Progress (Unit {0}) ℕ) × (v : List ℕ) × FailsAt plan start stack (plain "refused") s v
    × ((execute_rollback execute s.undos v).1 ≡ stack_after)
run-FailsAt_example = run-FailsAt execute plan stack stack_after (plain "refused") run_fails

build-iff_Distinct_example : (build plan ≡ ok plan) ↔ Distinct (keys plan)
build-iff_Distinct_example = build-iff_Distinct plan

abbrev two : List (Node (List ℕ) (Unit {0}) ℕ)
two = push 3 ∷ try_node "maybe" "" (λ _ w. (err (plain "no"), w)) ∷ []

abbrev bound : Bindings ℕ
bound = ("top", 3) ∷ []

two_built : build two ≡ ok two
unfolding build
two_built = refl

two-run : run execute two [] ≡ (ok bound, 3 ∷ [])
unfolding run
two-run = refl

nothing_first :
    interpret {W = List ℕ} {Act = Unit {0}} {Val = ℕ} [] start [] ≡ (ok (start, none), [])
unfolding interpret
nothing_first = refl

produced_value_kept_example : lookup "top" bound ≡ some 3
produced_value_kept_example =
    produced_value_kept execute [] (try_node "maybe" "" (λ _ w. (err (plain "no"), w)) ∷ []) "top"
      "" (λ _ w. (ok 3, 3 ∷ w)) (some (λ _. ok (tt ∷ []))) start [] [] (3 ∷ []) (3 ∷ []) 3 bound
      two_built nothing_first refl two-run
