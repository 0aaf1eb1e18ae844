-- ===== src/Manager/Reap.antt =====
-- The removal of records whose program is gone from the kernel, before a load (manager/load.go):
-- the plan, which is pure, and its execution.
pub mod Counts
pub mod Passes
pub mod Contract
pub mod Execution
use go_bpfman.Prelude.{
  ℕ, zero, suc, Bool, true, false, ◌||◌, not, ℤ, pos, negsuc, ltb_ℤ, leb, List, [], ◌∷◌, ◌++◌, map,
  Option, none, some, ◌==◌, if◌then◌else◌, length,
}
use go_bpfman.Layout.{program_dir, map_pin_dir}
use go_bpfman.Exec.{Exec, pure, panics, ◌>>=◌, ◌>>◌, wrapping, logged, on_error}
use go_bpfman.Manager.World.{
  World, ManagerEnv, ProgramRecord, invoke, invoke_unit, list_records, kernel_programs,
  delete_program, remove_program_dir,
}
use go_bpfman.Manager.Unload.{remove_program_maps_pins, cleanup_shared_map_pins}
use go_bpfman.Manager.Order.{contains}

-- map[kernel.ProgramID]bpfman.ProgramRecord, each key once
abbrev pub Programs : Type 0
Programs = List (ℕ × ProgramRecord)

abbrev pub keys : Programs → List ℕ
keys programs = map (λ p. p.0) programs

-- reapSnapshot; the second map is the list of its keys.
pub record ReapSnapshot : Type 0 where
  pub store_programs : Programs
  pub live_kernel_program : List ℕ

pub data ReapActionKind : Type 0 where
  reap_dead_program_record : ReapActionKind

pub record ReapAction : Type 0 where
  pub kind : ReapActionKind
  pub program_id : ℕ

-- A map[kernel.ProgramID]int, in which every key stands for 0 at first.
abbrev pub Counts : Type 0
Counts = ℕ → ℤ

succ_ℤ : ℤ → ℤ
succ_ℤ (pos n) = pos (suc n)
succ_ℤ (negsuc zero) = pos 0
succ_ℤ (negsuc (suc n)) = negsuc n

pred_ℤ : ℤ → ℤ
pred_ℤ (pos zero) = negsuc 0
pred_ℤ (pos (suc n)) = pos n
pred_ℤ (negsuc n) = negsuc (suc n)

-- deps[*owner]++ where there is an owner
unfoldable pub increment : Option ℕ → Counts → Counts
unfolding succ_ℤ
increment none deps a = deps a
increment (some owner) deps a = if owner == a then succ_ℤ (deps a) else deps a

-- deps[*owner]-- where there is an owner
unfoldable pub decrement : Option ℕ → Counts → Counts
unfolding pred_ℤ
decrement none deps a = deps a
decrement (some owner) deps a = if owner == a then pred_ℤ (deps a) else deps a

unfoldable pub count_dependents : Programs → Counts → Counts
unfolding increment
count_dependents [] deps = deps
count_dependents ((_, p) ∷ programs) deps =
    count_dependents programs (increment p.map_owner_id deps)

-- progs[id].Handles.MapOwnerID
unfoldable pub owner_of : Programs → ℕ → Option ℕ
owner_of [] id = none
owner_of ((k, p) ∷ programs) id = if k == id then p.map_owner_id else owner_of programs id

unfoldable pub dead_ids : List ℕ → Programs → List ℕ
unfolding contains
dead_ids live [] = []
dead_ids live ((id, _) ∷ programs) =
    let rest = dead_ids live programs in if contains live id then rest else id ∷ rest

insert_sorted : ℕ → List ℕ → List ℕ
insert_sorted a [] = a ∷ []
insert_sorted a (x ∷ xs) = let rest = insert_sorted a xs in if leb a x then a ∷ x ∷ xs else x ∷ rest

-- slices.Sort
unfoldable pub sort_ids : List ℕ → List ℕ
unfolding insert_sorted
sort_ids [] = []
sort_ids (a ∷ xs) = insert_sorted a (sort_ids xs)

-- plan, removed and deps
pub record ReapState : Type 0 where
  pub plan : List ReapAction
  pub removed : List ℕ
  pub deps : Counts

-- removed[id] || deps[id] > 0
unfoldable pub is_blocked : ReapState → ℕ → Bool
unfolding contains
is_blocked s id = contains s.removed id || ltb_ℤ (pos 0) (s.deps id)

module _ (programs : Programs) where
  unfoldable pub reap_one : ℕ → ReapState → ReapState
  unfolding decrement owner_of
  reap_one id s = record {
    plan = s.plan ++ record { kind = reap_dead_program_record; program_id = id } ∷ [];
    removed = id ∷ s.removed;
    deps = decrement (owner_of programs id) s.deps;
  }

  -- One pass over the dead ids, with the flag `progress`.
  unfoldable pub reap_pass : List ℕ → ReapState → Bool → ReapState × Bool
  unfolding is_blocked reap_one
  reap_pass [] s progress = (s, progress)
  reap_pass (id ∷ ids) s progress = elim (is_blocked s id) [
    | true ↦ reap_pass ids s progress
    | false ↦ reap_pass ids (reap_one id s) true
  ]

  -- The passes, until one makes no progress.
  unfoldable pub reap_passes : ℕ → List ℕ → ReapState → Option ReapState
  unfolding reap_pass
  reap_passes zero ids s = none
  reap_passes (suc fuel) ids s =
      let (t, progress) = reap_pass ids s false in
      elim progress [ true ↦ reap_passes fuel ids t | false ↦ some t ]

plan_of : Option ReapState → Option (List ReapAction)
plan_of none = none
plan_of (some s) = some s.plan

-- planReap; each pass but the last plans the removal of one more of the dead programs.
unfoldable pub plan_reap : ReapSnapshot → Option (List ReapAction)
unfolding reap_passes plan_of count_dependents dead_ids sort_ids
plan_reap snap =
    let programs = snap.store_programs in
    let ids = sort_ids (dead_ids snap.live_kernel_program programs) in
    plan_of (
      reap_passes programs (suc (length ids)) ids
        (record { plan = []; removed = []; deps = count_dependents programs (λ _. pos 0) }))

module _ (env : ManagerEnv) where
  -- observeDeadProgramReapSnapshot
  unfoldable pub observe_dead_program_reap_snapshot : Exec World ReapSnapshot
  observe_dead_program_reap_snapshot = do
    programs ← wrapping "list store programs" (invoke env list_records (λ w. env.records_of w))
    live ←
        wrapping "enumerate kernel programs" (invoke env kernel_programs (λ w. env.kernel_ids_of w))
    pure (record { store_programs = programs; live_kernel_program = live })

  -- executeReapDeadProgramRecord
  unfoldable pub execute_reap_dead_program_record : ℕ → Exec World (Unit {0})
  unfolding cleanup_shared_map_pins program_dir map_pin_dir
  execute_reap_dead_program_record id = do
    logged (remove_program_maps_pins env (map_pin_dir env.base id))
    logged (cleanup_shared_map_pins env id)
    on_error (invoke_unit env (delete_program id)) (λ _. pure tt)
        (λ _. logged (invoke_unit env (remove_program_dir (program_dir env.base id))))

  -- executeReapPlan; there is one kind of action.
  unfoldable pub execute_reap_plan : List ReapAction → Exec World (Unit {0})
  unfolding execute_reap_dead_program_record
  execute_reap_plan [] = pure tt
  execute_reap_plan (a ∷ plan) =
      execute_reap_dead_program_record a.program_id >> execute_reap_plan plan

  -- The plan, where its passes end.
  unfoldable pub execute_planned : Option (List ReapAction) → Exec World (Unit {0})
  unfolding execute_reap_plan
  execute_planned none = panics "endless passes"
  execute_planned (some plan) = execute_reap_plan plan

  -- reapDeadProgramRecords
  unfoldable pub reap_dead_program_records : Exec World (Unit {0})
  unfolding observe_dead_program_reap_snapshot execute_planned plan_reap
  reap_dead_program_records =
      observe_dead_program_reap_snapshot >>= λ snap. execute_planned (plan_reap snap)
