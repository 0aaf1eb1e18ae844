-- ===== src/Examples/Totals.antt =====
-- A batch deletion where the dispatchers' store never answers.
use go_bpfman.Prelude.{
  ℕ, ◌==◌, inl, inr, [], ◌∷◌, some, Bool-cases, true, false, if◌then◌else◌, arith,
}
use go_bpfman.Errors.{plain}
use go_bpfman.Exec.Total.{IsTotal}
use go_bpfman.Manager.World.{World, ManagerEnv, rebuilding}
use go_bpfman.Manager.Executor.{Action, execute}
use go_bpfman.Manager.Executor
use go_bpfman.Manager.Order.{dependents_of}
use go_bpfman.Manager.Detach.Total.{IsCalm, invoke-IsTotal}
use go_bpfman.Manager.Delete.{delete_programs, delete_links, group_by_owner}
use go_bpfman.Manager.Delete.Total.{IsRanked, delete_programs-IsTotal}
use go_bpfman.Manager.Delete.Total.Links.{delete_links-IsTotal}
use go_bpfman.Rebuild.Detach.{rebuild_dispatcher_for_detach}
use go_bpfman.Rebuild.Empty.{remove_dispatcher_if_empty}
use go_bpfman.World
use go_bpfman.Examples.Fixtures
use go_bpfman.Examples.Unloads

abbrev env : ManagerEnv
env = record Unloads.env {
  dispatchers = λ _. record Fixtures.env { fails = λ _ _. some (plain "closed") };
}

calm : IsCalm env
unfolding execute IsTotal rebuilding rebuild_dispatcher_for_detach remove_dispatcher_if_empty
    World.invoke
calm (Executor.detach_link path) w = invoke-IsTotal env _ (λ _. tt) w
calm (Executor.delete_link id) w = invoke-IsTotal env _ (λ _. tt) w
calm (Executor.rebuild_dispatcher_for_detach key id) w = tt
calm (Executor.remove_dispatcher key) w = tt
calm (Executor.unload_program path) w = invoke-IsTotal env _ (λ _. tt) w
calm (Executor.remove_maps_pins path) w = invoke-IsTotal env _ (λ _. tt) w
calm (Executor.publish_bytecode id path) w = invoke-IsTotal env _ (λ _. tt) w
calm (Executor.remove_program_dir path) w = invoke-IsTotal env _ (λ _. tt) w

rank : ℕ → ℕ
rank a = if a == 7 then 1 else 0

ranked : (w : World) → IsRanked rank (group_by_owner [] (env.programs_of w))
unfolding dependents_of group_by_owner rank
ranked w a d i = elim (Bool-cases (7 == a)) [
  | inl e ↦ ground (arith, rw e at i)
  | inr e ↦ absurd (rw e at i)
]

delete_programs-IsTotal_example : IsTotal (delete_programs env 2 (7 ∷ 9 ∷ 8 ∷ []) true false)
unfolding rank
delete_programs-IsTotal_example =
    delete_programs-IsTotal env rank 2 (7 ∷ 9 ∷ 8 ∷ []) true false calm ranked (λ a. ground arith)

delete_links-IsTotal_example : IsTotal (delete_links env 2 (3 ∷ 4 ∷ []) true)
unfolding rank
delete_links-IsTotal_example =
    delete_links-IsTotal env rank 2 (3 ∷ 4 ∷ []) true calm ranked (λ a. ground arith)
