-- ===== src/Manager/Reap/Execution.antt =====
-- A reap attempts the deletions of a plan that keeps the planner's promise, and no others.
use go_bpfman.Prelude.{ℕ, ◌≡◌, refl, ap, ◌∙◌, List, [], ◌∷◌, ◌++◌}
use mathlib.Core.List.{append-nil, append_assoc}
use go_bpfman.Errors.{Err}
use go_bpfman.Exec.{wrapped, dropped}
use go_bpfman.Exec.Total.{
  IsTotal, pure-IsTotal, bind-IsTotal, on_error-IsTotal, wrapping-IsTotal, logged-IsTotal,
}
use go_bpfman.Exec.Settled.{Settled, Settled-bind}
use go_bpfman.Manager.Detach.Total.{invoke-IsTotal}
use go_bpfman.Manager.Unload.Total.{cleanup_shared_map_pins-IsTotal}
use go_bpfman.Exec.Ends.{Ends, Ends-wrapped, Ends-bind, Ends-weaken, Ends-on_error}
use go_bpfman.Layout.{program_dir, map_pin_dir}
use go_bpfman.Manager.World.{
  Call, Event, done, failed, Trace, World, ManagerEnv, invoke, list_records, kernel_programs,
  delete_program, load_program, unload_pin, remove_program_dir,
}
use go_bpfman.Manager.World.Since.{
  call_of, IsOther, NoDeletion, Since, Since-cons, invoke-Ends, invoke_keeps,
}
use go_bpfman.Manager.Executor.Keeps.{Keeps-logged}
use go_bpfman.Manager.Unload.{cleanup_shared_map_pins}
use go_bpfman.Manager.Unload.Keeps.{cleanup_shared_map_pins-Keeps}
use go_bpfman.Manager.Order.Members.{Distinct}
use go_bpfman.Manager.Reap.{
  Programs, keys, ReapSnapshot, ReapAction, execute_reap_dead_program_record, execute_reap_plan,
  execute_planned, observe_dead_program_reap_snapshot, reap_dead_program_records, plan_reap,
}
use go_bpfman.Manager.Reap.Passes.{plan_ids}
use go_bpfman.Manager.Reap.Contract.{IsReapPlan, plan_reap-IsReapPlan}

-- The record that a call deletes.
pub deleted_by : Call → List ℕ
deleted_by (delete_program id) = id ∷ []
deleted_by _ = []

-- The records whose deletion was attempted, in the order of the attempts.
unfoldable pub attempted : Trace → List ℕ
unfolding deleted_by
attempted [] = []
attempted (ev ∷ t) = attempted t ++ deleted_by (call_of ev)

-- The deletions attempted since `start` are those of `ids`, in that order.
abbrev pub Attempts : List ℕ → Trace → Type 0
Attempts ids new = attempted new ≡ ids

other_deletes : (c : Call) → IsOther c → deleted_by c ≡ []
unfolding deleted_by
other_deletes (delete_program id) h = absurd h
other_deletes (load_program spec) h = absurd h
other_deletes _ h = refl

Attempts-closed :
    (ids : List ℕ) (ev : Event) (new : Trace)
    → IsOther (call_of ev)
    → Attempts ids new
    → Attempts ids (ev ∷ new)
unfolding attempted
Attempts-closed ids ev new o h = rw (other_deletes (call_of ev) o) (append-nil (attempted new) ∙ h)

Attempts-cons :
    (ids : List ℕ) (ev : Event) (new : Trace) (id : ℕ)
    → deleted_by (call_of ev) ≡ id ∷ []
    → Attempts ids new
    → Attempts (ids ++ id ∷ []) (ev ∷ new)
unfolding attempted
Attempts-cons ids ev new id p h = rw (h, p) refl

module _ (env : ManagerEnv) (start : World) where
  execute_record-Ends :
      (ids : List ℕ) (id : ℕ) (w : World)
      → Since start (Attempts ids) w
      → Ends
          (λ _ _. ⊥)
          (λ _. Since start (Attempts (ids ++ id ∷ [])))
          (execute_reap_dead_program_record env id w)
  unfolding execute_reap_dead_program_record deleted_by
  execute_record-Ends ids id w s =
      Ends-bind (λ _ _. ⊥) (λ _. Since start (Attempts ids)) _
        (dropped (invoke env (unload_pin (map_pin_dir env.base id)) (λ _. tt) w)) _
        (Keeps-logged start (Attempts ids) _ _ (
          invoke_keeps env start (Attempts ids) (Attempts-closed ids) (unload_pin _) (λ _. tt) w tt
            s))
        λ _ v i.
          Ends-bind (λ _ _. ⊥) (λ _. Since start (Attempts ids)) _
            (dropped (cleanup_shared_map_pins env id v)) _
            (Keeps-logged start (Attempts ids) _ _
              (cleanup_shared_map_pins-Keeps env start (Attempts ids) (Attempts-closed ids) id v i))
            λ _ u j.
              let D : Err → World → Type 0 = λ _. Since start (Attempts (ids ++ id ∷ [])) in
              let Q : Unit {0} → World → Type 0 = λ _. Since start (Attempts (ids ++ id ∷ [])) in
              Ends-on_error D (λ _ _. ⊥) Q Q (invoke env (delete_program id) (λ _. tt) u) _ _
                (invoke-Ends env D Q (delete_program id) (λ _. tt) u
                  (Since-cons start (Attempts ids) _ (done (delete_program id)) u u.log
                    (λ new. Attempts-cons ids (done (delete_program id)) new id refl) j)
                  (λ e.
                    Since-cons start (Attempts ids) _ (failed (delete_program id) e) u u.log
                      (λ new. Attempts-cons ids (failed (delete_program id) e) new id refl) j))
                (λ e t k. k)
                (λ _ t k.
                  Keeps-logged start (Attempts (ids ++ id ∷ [])) (λ _ _. ⊥) _
                    (invoke_keeps env start (Attempts (ids ++ id ∷ []))
                      (Attempts-closed (ids ++ id ∷ []))
                      (remove_program_dir (program_dir env.base id)) (λ _. tt) t tt k))

  execute_plan-Ends :
      (ids : List ℕ) (plan : List ReapAction) (w : World)
      → Since start (Attempts ids) w
      → Ends
          (λ _ _. ⊥)
          (λ _. Since start (Attempts (ids ++ plan_ids plan)))
          (execute_reap_plan env plan w)
  unfolding execute_reap_plan
  execute_plan-Ends ids [] w s = rw (append-nil ids) s
  execute_plan-Ends ids (a ∷ plan) w s =
      let id = a.program_id in
      Ends-bind (λ _ _. ⊥) (λ _. Since start (Attempts (ids ++ id ∷ []))) _
        (execute_reap_dead_program_record env id w) _ (execute_record-Ends ids id w s)
        λ _ v i.
          rw (← append_assoc ids (id ∷ []) (plan_ids plan))
            (execute_plan-Ends (ids ++ id ∷ []) plan v i)

module _ (env : ManagerEnv) where
  execute_record-IsTotal : (id : ℕ) → IsTotal (execute_reap_dead_program_record env id)
  unfolding execute_reap_dead_program_record
  execute_record-IsTotal id = bind-IsTotal _ _ (logged-IsTotal _ (invoke-IsTotal env _ _)) λ _.
      bind-IsTotal _ _ (logged-IsTotal _ (cleanup_shared_map_pins-IsTotal env id)) λ _.
        on_error-IsTotal _ _ _ (invoke-IsTotal env _ _) (λ _. pure-IsTotal _ _)
          (λ _. logged-IsTotal _ (invoke-IsTotal env _ _))

  execute_plan-IsTotal : (plan : List ReapAction) → IsTotal (execute_reap_plan env plan)
  unfolding execute_reap_plan
  execute_plan-IsTotal [] = pure-IsTotal _ _
  execute_plan-IsTotal (a ∷ plan) =
      bind-IsTotal _ _ (execute_record-IsTotal a.program_id) (λ _. execute_plan-IsTotal plan)

  observe-IsTotal : IsTotal (observe_dead_program_reap_snapshot env)
  unfolding observe_dead_program_reap_snapshot
  observe-IsTotal =
      bind-IsTotal _ _ (wrapping-IsTotal _ _ (invoke-IsTotal env _ _)) λ _.
        bind-IsTotal _ _ (wrapping-IsTotal _ _ (invoke-IsTotal env _ _)) (λ _. pure-IsTotal _ _)

  -- What the store and the kernel answer from `start` on.
  abbrev pub Answered : World → ReapSnapshot → Type 0
  Answered start snap =
      (snap.store_programs ≡ env.records_of start)
      × (snap.live_kernel_program
          ≡ env.kernel_ids_of (record start { trace = done list_records ∷ start.trace }))

  -- A plan for what the store and the kernel answered was executed, and no more.
  abbrev pub Reaped : World → World → Type 0
  Reaped start w =
      (snap : ReapSnapshot) × (ids : List ℕ) × Answered start snap
      × IsReapPlan snap ids
      × Since start (Attempts ids) w

  observe-Ends :
      (w : World)
      → Ends
          (λ _. Since w NoDeletion)
          (λ snap v. Answered w snap × Since w (Attempts []) v)
          (observe_dead_program_reap_snapshot env w)
  unfolding observe_dead_program_reap_snapshot attempted deleted_by
  observe-Ends w =
      let E : Err → World → Type 0 = λ _. Since w NoDeletion in
      let u : World = record w { trace = done list_records ∷ w.trace } in
      let Q : Programs → World → Type 0 = λ programs v. (programs ≡ env.records_of w) × (v ≡ u) in
      let Q' : List ℕ → World → Type 0 =
        λ live v. (live ≡ env.kernel_ids_of u) × Since w (Attempts []) v in
      Ends-bind E Q _
        (wrapped "list store programs" (invoke env list_records (λ v. env.records_of v) w)) _
        (Ends-wrapped E Q "list store programs" _ (
          invoke-Ends env E Q list_records (λ v. env.records_of v) w (refl, refl)
            (λ e. (failed list_records e ∷ [], refl, (tt, tt)))))
        λ programs v (p, q).
          Ends-bind E Q' _
            (wrapped "enumerate kernel programs"
              (invoke env kernel_programs (λ x. env.kernel_ids_of x) v))
            _
            (Ends-wrapped E Q' "enumerate kernel programs" _ (
              invoke-Ends env E Q' kernel_programs (λ x. env.kernel_ids_of x) v
                (
                  ap (λ x. env.kernel_ids_of x) q,
                  (
                    done kernel_programs ∷ done list_records ∷ [],
                    ap (λ x. done kernel_programs ∷ x.trace) q,
                    refl,
                  ),
                )
                (λ e. (
                  failed kernel_programs e ∷ done list_records ∷ [],
                  ap (λ x. failed kernel_programs e ∷ x.trace) q,
                  (tt, (tt, tt)),
                ))))
            (λ live x (l, s). ((p, l), s))

  planned-Settled :
      (start : World) (snap : ReapSnapshot) (w : World)
      → Distinct (keys snap.store_programs)
      → Answered start snap
      → Since start (Attempts []) w
      → Settled
          (λ _. Since start NoDeletion)
          (λ _. Reaped start)
          (execute_planned env (plan_reap snap) w)
  unfolding execute_planned IsTotal
  planned-Settled start snap w keyed a s =
      let (plan, e, good) = plan_reap-IsReapPlan snap keyed in
      rw e (
        execute_plan-IsTotal plan w,
        Ends-weaken (λ _ _. ⊥) (λ _. Since start NoDeletion)
            (λ _. Since start (Attempts (plan_ids plan))) (λ _. Reaped start)
            (execute_reap_plan env plan w) (execute_plan-Ends env start [] plan w s)
            (λ _ v h. absurd h) (λ _ v h. (snap, plan_ids plan, a, good, h)),
      )

-- Where the store lists each program once, the reap before a load returns. If it returns an error,
-- then it has not attempted to delete any record. If it returns none, then the records whose
-- deletion it attempted, in the order of the attempts, are those of a plan that keeps the
-- planner's promise for what the store and the kernel listed when it started: dead records only,
-- each once, an owner of maps behind its dependents, and none left but those that a record which
-- stays names. A deletion that fails does not stop those behind it.
pub reap_dead_program_records-Settled :
    (env : ManagerEnv) (start : World)
    → Distinct (keys (env.records_of start))
    → Settled
        (λ _. Since start NoDeletion)
        (λ _. Reaped env start)
        (reap_dead_program_records env start)
unfolding reap_dead_program_records IsTotal
reap_dead_program_records-Settled env start keyed =
    Settled-bind (λ _. Since start NoDeletion)
      (λ snap v. Answered env start snap × Since start (Attempts []) v) (λ _. Reaped env start)
      (observe_dead_program_reap_snapshot env start) _
      (observe-IsTotal env start, observe-Ends env start)
      (λ snap v (a, s). planned-Settled env start snap v (rw a.0 keyed) a s)
