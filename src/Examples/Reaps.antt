-- ===== src/Examples/Reaps.antt =====
-- Reaping dead records at a concrete store and kernel.
use go_bpfman.Prelude.{ℕ, List, ◌≡◌, refl, [], ◌∷◌, some, arith}
use go_bpfman.Exec.Settled.{Settled}
use go_bpfman.Manager.World
use go_bpfman.Manager.World.Since.{Since, NoDeletion}
use go_bpfman.Manager.Reap.{
  ReapSnapshot, ReapAction, reap_dead_program_record, plan_reap, reap_dead_program_records,
}
use go_bpfman.Manager.Reap.Passes.{plan_ids}
use go_bpfman.Manager.Reap.Contract.{IsReapPlan, plan_reap-IsReapPlan}
use go_bpfman.Manager.Reap.Execution.{attempted, Reaped, reap_dead_program_records-Settled}
use go_bpfman.Examples.Unloads.{env, now}

abbrev snapshot : ReapSnapshot
snapshot = record {
  store_programs = env.records_of now;
  live_kernel_program = env.kernel_ids_of now;
}

abbrev removal : ℕ → ReapAction
removal id = record { kind = reap_dead_program_record; program_id = id }

-- 8 goes before its owner 7; the owner 9 of the live 10 stays.
planned : plan_reap snapshot ≡ some (removal 8 ∷ removal 7 ∷ [])
unfolding plan_reap
planned = refl

-- The deletions that were attempted, oldest first.
executed : attempted (reap_dead_program_records env now).1.trace ≡ 8 ∷ 7 ∷ []
unfolding attempted reap_dead_program_records World.invoke
executed = refl

plan_reap-IsReapPlan_example :
    (plan : List ReapAction) × (plan_reap snapshot ≡ some plan)
    × IsReapPlan snapshot (plan_ids plan)
plan_reap-IsReapPlan_example = plan_reap-IsReapPlan snapshot (ground arith)

reap_dead_program_records-Settled_example :
    Settled (λ _. Since now NoDeletion) (λ _. Reaped env now) (reap_dead_program_records env now)
reap_dead_program_records-Settled_example = reap_dead_program_records-Settled env now (ground arith)
