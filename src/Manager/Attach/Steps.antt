-- ===== src/Manager/Attach/Steps.antt =====
-- The steps of a simple attach, up to each of its ends.
use go_bpfman.Prelude.{
  String, Text, ◌≡◌, refl, inl, inr, [], ◌∷◌, Option, none, some, Option-cases, arith,
}
use go_bpfman.Errors.{Err, wrap}
use go_bpfman.Exec.{ok, err, panic, dropped}
use go_bpfman.Links.{LinkRecord, AttachOutput}
use go_bpfman.Layout.{links_dir}
use go_bpfman.Operation.{Progress, build, interpret, step, start, run, get}
use go_bpfman.Operation.Steps.{run_failed, rollback_pair}
use go_bpfman.Manager.World.{Call, Event, done, failed, World, ManagerEnv, invoke}
use go_bpfman.Manager.World
use go_bpfman.Manager.World.Since.{after_call}
use go_bpfman.Manager.Executor.{Action, execute}
use go_bpfman.Manager.Executor
use go_bpfman.Manager.Attach.{
  AttachPlan, AttachParams, prepare_plan, pending_spec, create_pending, link_of, finalise, Val,
  prepared, pending, attached, simple_attach_nodes, simple_attach_plan, simple_attach,
}

abbrev pub note : Event → World → World
note ev w = record w { trace = ev ∷ w.trace }

-- The event of a call, by the error that answers it.
abbrev answer : Option Err → Call → Event
answer none c = done c
answer (some e) c = failed c e

module _ (env : ManagerEnv) (p : AttachParams) where
  -- The creation of the record, which comes first.
  abbrev pub creation : AttachPlan → Call
  creation pa = World.create_pending_link (pending_spec env p pa) (links_dir env.base)

  module _ (pa : AttachPlan) (v : World) where
    abbrev pub pending_link : LinkRecord
    pending_link = env.pending_of v (pending_spec env p pa)

    abbrev pub created : World
    created = note (done (creation pa)) v

  -- The calls behind the creation, where the record has the pin path `path`.
  module _ (pa : AttachPlan) (path : Text) (v : World) where
    abbrev pub kernel_attach : Call
    kernel_attach = World.attach (pa.attach_action path)

    abbrev pub output : AttachOutput
    output = env.attached_of (created pa v) (pa.attach_action path)

    abbrev pub was_attached : World
    was_attached = note (done kernel_attach) (created pa v)

    abbrev pub save : Call
    save = World.finalise_link (pending_link pa v).id output.kernel_link_id

  plan_built : simple_attach_plan env p ≡ ok (simple_attach_nodes env p)
  unfolding simple_attach_plan simple_attach_nodes build
  plan_built = refl

  module _ (pa : AttachPlan) (w v : World) (is_prepared : prepare_plan env p w ≡ (ok pa, v)) where
    pub not_created :
        (e : Err)
        → env.fails v (creation pa) ≡ some e
        → simple_attach env p w ≡ (err e, note (failed (creation pa) e) v)
    unfolding simple_attach simple_attach_plan create_pending build run execute invoke get
    not_created e f = ground (arith, is_prepared, f)

    module _ (path : Text) (pinned : (pending_link pa v).pin_path ≡ some path)
        (f : env.fails v (creation pa) ≡ none) where
      pub not_attached :
          (e : Err)
          → env.fails (created pa v) (kernel_attach pa path v) ≡ some e
          → simple_attach env p w ≡ (
            err e,
            after_call env
                (World.delete_link (pending_link pa v).id)
                (note (failed (kernel_attach pa path v) e) (created pa v)),
          )
      unfolding simple_attach simple_attach_plan create_pending build run execute invoke get
      not_attached e g =
          elim (Option-cases (
            env.fails (note (failed (kernel_attach pa path v) e) (created pa v))
              (World.delete_link (pending_link pa v).id))) [
                | inl h ↦ ground (arith, is_prepared, f, pinned, g, h)
                | inr (d, h) ↦ ground (arith, is_prepared, f, pinned, g, h)
              ]

      pub attached_and_saved :
          env.fails (created pa v) (kernel_attach pa path v) ≡ none
          → env.fails (was_attached pa path v) (save pa path v) ≡ none
          → simple_attach env p w ≡ (
            ok (
                link_of env p pa (output pa path v) (
                  env.finalised_of
                    (was_attached pa path v)
                    (pending_link pa v).id
                    (output pa path v).kernel_link_id)),
            note (done (save pa path v)) (was_attached pa path v),
          )
      unfolding simple_attach simple_attach_plan create_pending finalise build run execute invoke
          get
      attached_and_saved g h = ground (arith, is_prepared, f, pinned, g, h)

      module _ (e : Err) (g : env.fails (created pa v) (kernel_attach pa path v) ≡ none)
          (h : env.fails (was_attached pa path v) (save pa path v) ≡ some e) where
        abbrev unsaved : World
        unsaved = note (failed (save pa path v) e) (was_attached pa path v)

        abbrev detach : Call
        detach = World.detach_link path

        abbrev delete : Call
        delete = World.delete_link (pending_link pa v).id

        -- What the plan has bound and what there is to undo.
        abbrev reached : Progress Action Val
        reached = record {
          undos =
              (Executor.delete_link (pending_link pa v).id ∷ [])
              ∷ (Executor.detach_link path ∷ [])
              ∷ [];
          bindings =
              ("kernel-attach", attached (output pa path v))
              ∷ ("pending-link", pending (pending_link pa v))
              ∷ ("prepared", prepared pa)
              ∷ [];
        }

        interpreted :
            interpret (simple_attach_nodes env p) start w
            ≡ (ok (reached, some (wrap "save link metadata" e)), unsaved)
        unfolding simple_attach_nodes create_pending finalise interpret step invoke get
        interpreted = ground (arith, is_prepared, f, pinned, g, h)

        executed :
            (a : Action) (c : Call)
            → ((x : World) → execute env a x ≡ invoke env c (λ _. tt) x)
            → (x : World) → dropped (execute env a x) ≡ (ok tt, after_call env c x)
        unfolding invoke
        executed a c q x = elim (Option-cases (env.fails x c)) [
          | inl j ↦ rw (q x) (ground (arith, j))
          | inr (d, j) ↦ rw (q x) (ground (arith, j))
        ]

        unfinished : run (execute env) (simple_attach_nodes env p) w ≡ (
          err (wrap "save link metadata" e),
          after_call env delete (after_call env detach unsaved),
        )
        unfolding execute
        unfinished =
            run_failed (execute env) (simple_attach_nodes env p) w unsaved
              (after_call env delete (after_call env detach unsaved)) reached
              (wrap "save link metadata" e) interpreted
              (rollback_pair (execute env) (Executor.delete_link (pending_link pa v).id)
                (Executor.detach_link path) unsaved (after_call env detach unsaved)
                (after_call env delete (after_call env detach unsaved))
                (executed (Executor.detach_link path) detach (λ x. refl) unsaved)
                (executed (Executor.delete_link (pending_link pa v).id) delete (λ x. refl)
                  (after_call env detach unsaved)))

        pub not_finalised : simple_attach env p w ≡ (
          err (wrap "save link metadata" e),
          after_call env delete (after_call env detach unsaved),
        )
        unfolding simple_attach
        not_finalised = ground (arith, plan_built, unfinished)

  pub refused :
      (w v : World) (e : Err)
      → prepare_plan env p w ≡ (err e, v)
      → simple_attach env p w ≡ (err e, v)
  unfolding simple_attach simple_attach_plan create_pending finalise build run execute invoke get
  refused w v e q = ground (arith, q)

  pub panicked :
      (w v : World) (m : String)
      → prepare_plan env p w ≡ (panic m, v)
      → simple_attach env p w ≡ (panic m, v)
  unfolding simple_attach simple_attach_plan create_pending finalise build run execute invoke get
  panicked w v m q = ground (arith, q)
