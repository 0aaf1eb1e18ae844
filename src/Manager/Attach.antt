-- ===== src/Manager/Attach.antt =====
-- Attaching the programs that need no dispatcher (manager/attach_simple.go, attach_tracing.go).
pub mod Steps
pub mod Outcomes
pub mod Tracing
pub mod Hook
use go_bpfman.Prelude.{
  ℕ, Text, codes, ℤ, pos, ltb_ℤ, Bool, true, false, ◌&&◌, ◌||◌, not, List, [], ◌∷◌, ◌++◌, Option,
  none, some, text_eq, ◌==◌, if◌then◌else◌,
}
use go_bpfman.Errors.{Err, plain, wrap, program_not_found, is_not_found}
use go_bpfman.Exec.{
  Outcome, ok, err, panic, Exec, pure, fail, panics, ◌>>=◌, ◌>>◌, wrapping, on_error,
}
use go_bpfman.Platform.{Labels}
use go_bpfman.Links.{
  LinkDetails, tracepoint_details, kprobe_details, uprobe_details, fentry_details, fexit_details,
  kind, LinkRecord, LinkSpec, Link, AttachOutput, KernelAttach,
}
use go_bpfman.Links
use go_bpfman.Layout.{prog_pin_path, links_dir}
use go_bpfman.Operation.{Node, produce, Bindings, get, build, run}
use go_bpfman.Programs.{is_empty}
use go_bpfman.Manager.World.{World, ManagerEnv, ProgramRecord, invoke}
use go_bpfman.Manager.World
use go_bpfman.Manager.Executor.{Action, execute}
use go_bpfman.Manager.Executor
use go_bpfman.Manager.Detach.{lift}

-- attachPlan, without the target, which is logged only
pub record AttachPlan : Type 0 where
  pub details : LinkDetails
  pub attach_action : Text → KernelAttach

-- attachParams, without the target that labels the nodes
pub record AttachParams : Type 0 where
  pub program_id : ℕ
  pub metadata : Labels
  pub prepare : ProgramRecord → Text → Exec World AttachPlan

-- The values that the nodes bind.
pub data Val : Type 0 where
  prepared : AttachPlan → Val
  pending : LinkRecord → Val
  attached : AttachOutput → Val
  linked : Link → Val

abbrev as_prepared : Val → Option AttachPlan
as_prepared (prepared p) = some p
as_prepared _ = none

abbrev as_pending : Val → Option LinkRecord
as_pending (pending r) = some r
as_pending _ = none

abbrev pub as_attached : Val → Option AttachOutput
as_attached (attached out) = some out
as_attached _ = none

abbrev pub as_linked : Val → Option Link
as_linked (linked l) = some l
as_linked _ = none

-- *record.PinPath
abbrev pub pin_of : LinkRecord → Outcome Text
pin_of r = elim r.pin_path [ some path ↦ ok path | none ↦ panic "nil pin path" ]

abbrev pub is_some : {A : Type 0} → Option A → Bool
is_some none = false
is_some (some _) = true

module _ (env : ManagerEnv) where
  -- GetProgramFromStore, as the executor executes it
  unfoldable pub get_program_from_store : ℕ → Exec World ProgramRecord
  get_program_from_store id =
      on_error (invoke env (World.get_program id) (λ w. env.program_of w id))
        (λ e. if is_not_found e then fail (program_not_found id) else fail (wrap "get program" e))
        pure

  module _ (p : AttachParams) where
    -- The first node's function.
    unfoldable pub prepare_plan : Exec World AttachPlan
    unfolding get_program_from_store prog_pin_path
    prepare_plan = get_program_from_store p.program_id >>= λ prog.
        p.prepare prog (prog_pin_path env.base p.program_id)

    -- The spec of the second node.
    abbrev pub pending_spec : AttachPlan → LinkSpec
    pending_spec pa = record {
      program_id = p.program_id;
      kernel_link_id = none;
      link_kind = kind pa.details;
      pin_path = none;
      details = pa.details;
      metadata = p.metadata;
    }

    unfoldable pub create_pending : AttachPlan → Exec World LinkRecord
    unfolding kind links_dir
    create_pending pa =
        invoke env (World.create_pending_link (pending_spec pa) (links_dir env.base))
          (λ w. env.pending_of w (pending_spec pa))

    -- The link that the last node returns.
    abbrev pub link_of : AttachPlan → AttachOutput → LinkRecord → Link
    link_of pa out finalised = record {
      link_record = record finalised { details = pa.details };
      status = record {
        kernel = out.kernel_link;
        kernel_seen = is_some out.kernel_link;
        pin_present = not (is_empty out.pin_path);
      };
    }

    unfoldable pub finalise : AttachPlan → LinkRecord → AttachOutput → Exec World Link
    finalise pa pending_record out =
        wrapping "save link metadata" (
          invoke env (World.finalise_link pending_record.id out.kernel_link_id)
            (λ w. env.finalised_of w pending_record.id out.kernel_link_id))
        >>= λ finalised. pure (link_of pa out finalised)

    abbrev delete_pending : Bindings Val → Outcome (List Action)
    delete_pending b = elim (get as_pending "pending-link" b) [
      | Outcome.ok r ↦ ok (Executor.delete_link r.id ∷ [])
      | Outcome.err e ↦ err e
      | Outcome.panic m ↦ panic m
    ]

    abbrev detach_pending : Bindings Val → Outcome (List Action)
    detach_pending b = elim (get as_pending "pending-link" b) [
      | Outcome.ok r ↦ elim (pin_of r) [
        | Outcome.ok path ↦ ok (Executor.detach_link path ∷ [])
        | Outcome.err e ↦ err e
        | Outcome.panic m ↦ panic m
      ]
      | Outcome.err e ↦ err e
      | Outcome.panic m ↦ panic m
    ]

    unfoldable pub simple_attach_nodes : List (Node World Action Val)
    unfolding prepare_plan create_pending finalise get
    simple_attach_nodes =
        produce "prepared" "" (λ _. prepare_plan >>= λ pa. pure (prepared pa)) none
        ∷ produce "pending-link" ""
            (λ b. lift (get as_prepared "prepared" b) >>= λ pa.
              create_pending pa >>= λ r. pure (pending r))
            (some delete_pending)
        ∷ produce "kernel-attach" ""
            (λ b. lift (get as_prepared "prepared" b) >>= λ pa.
              lift (get as_pending "pending-link" b) >>= λ r. lift (pin_of r) >>= λ path.
              invoke env (World.attach (pa.attach_action path))
                (λ w. env.attached_of w (pa.attach_action path))
              >>= λ out. pure (attached out))
            (some detach_pending)
        ∷ produce "link" ""
            (λ b. lift (get as_prepared "prepared" b) >>= λ pa.
              lift (get as_pending "pending-link" b) >>= λ r.
              lift (get as_attached "kernel-attach" b) >>= λ out.
              finalise pa r out >>= λ l. pure (linked l))
            none
        ∷ []

    -- simpleAttachPlan
    unfoldable pub simple_attach_plan : Outcome (List (Node World Action Val))
    unfolding simple_attach_nodes
    simple_attach_plan = build simple_attach_nodes

    -- simpleAttach
    unfoldable pub simple_attach : Exec World Link
    unfolding simple_attach_plan get
    simple_attach = lift simple_attach_plan >>= λ plan. run (execute env) plan >>= λ b.
        lift (get as_prepared "prepared" b) >>= λ _. lift (get as_linked "link" b)
