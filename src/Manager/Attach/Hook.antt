-- ===== src/Manager/Attach/Hook.antt =====
-- Attaching to the TCX hook of an interface (attachTCX in manager/attach_tc.go, saveLinkNode in
-- manager/attach_simple.go).
pub mod Guard
use go_bpfman.Prelude.{
  ℕ, Text, ℤ, Bool, true, false, ◌||◌, not, List, [], ◌∷◌, Option, none, some, ◌==◌, if◌then◌else◌,
}
use go_bpfman.Errors.{Err, plain}
use go_bpfman.Exec.{Outcome, ok, err, panic, Exec, pure, fail, ◌>>=◌, ◌>>◌, wrapping, on_error}
use go_bpfman.Platform.{Labels}
use go_bpfman.Links.{
  TcDirection, direction_name, LinkDetails, tcx_details, kind, new_link_path, LinkSpec, Link,
  AttachOutput, attach_tcx,
}
use go_bpfman.Layout.{tcx_link_path}
use go_bpfman.Operation.{Node, produce, Bindings, get, build, run}
use go_bpfman.Programs.{is_empty}
use go_bpfman.Rebuild.{to_int32}
use go_bpfman.Tcx.{TcxAttachOrder, TcxLinkInfo, compute_tcx_attach_order, filter_live_tcx_links}
use go_bpfman.Manager.World.{World, ManagerEnv, ProgramRecord, invoke, invoke_unit}
use go_bpfman.Manager.World
use go_bpfman.Manager.Executor.{Action, execute}
use go_bpfman.Manager.Executor
use go_bpfman.Manager.Lookup.{get_program}
use go_bpfman.Manager.Detach.{lift}
use go_bpfman.Manager.Attach.{Val, attached, linked, as_attached, as_linked, is_some}

-- TCXAttachSpec; the priority is an int.
pub record TcxAttachSpec : Type 0 where
  pub program_id : ℕ
  pub ifname : Text
  pub direction : TcDirection
  pub priority : ℤ
  pub netns : Text
  pub metadata : Labels

-- The search for a link of the program itself.
unfoldable pub is_attached : ℕ → List TcxLinkInfo → Bool
is_attached id [] = false
is_attached id (l ∷ links) = l.kernel_program_id == id || is_attached id links

module _ (env : ManagerEnv) where
  -- The function of saveLinkNode.
  unfoldable pub save_link :
      ℕ
      → Labels
      → (Bindings Val → Outcome (LinkDetails × AttachOutput))
      → Bindings Val
      → Exec World Val
  unfolding kind new_link_path
  save_link program_id metadata extract b = lift (extract b) >>= λ x.
      let details = x.0 in
      let out = x.1 in
      let spec : LinkSpec = record {
        program_id = program_id;
        kernel_link_id = out.kernel_link_id;
        link_kind = kind details;
        pin_path = new_link_path out.pin_path;
        details = details;
        metadata = metadata;
      } in
      wrapping "save link metadata"
        (invoke env (World.create_link spec) (λ w. env.created_of w spec))
      >>= λ r. pure (
          linked (record {
            link_record = r;
            status = record {
              kernel = out.kernel_link;
              kernel_seen = is_some out.kernel_link;
              pin_present = not (is_empty out.pin_path);
            };
          }))

  -- saveLinkNode
  unfoldable pub save_link_node :
      ℕ → Labels → (Bindings Val → Outcome (LinkDetails × AttachOutput)) → Node World Action Val
  unfolding save_link
  save_link_node program_id metadata extract =
      produce "link" "" (save_link program_id metadata extract) none

  -- The closure that says whether an anchor's program is live.
  unfoldable pub is_live : ℕ → Exec World Bool
  is_live id =
      on_error (invoke_unit env (World.kernel_program id))
        (λ e. if env.is_not_exist e then pure false else pure true) (λ _. pure true)

  module _ (spec : TcxAttachSpec) (ifindex nsid : ℕ) where
    abbrev pub link_pin : Text
    link_pin = tcx_link_path env.base (direction_name spec.direction) nsid ifindex spec.program_id

    -- attachTCXPlan
    unfoldable pub attach_tcx_plan : Text → TcxAttachOrder → Outcome (List (Node World Action Val))
    unfolding to_int32 save_link_node get direction_name tcx_link_path
    attach_tcx_plan prog_pin order =
        let call =
          attach_tcx ifindex (direction_name spec.direction) prog_pin link_pin spec.netns order in
        build (
          produce "kernel-attach" ""
            (λ _. invoke env (World.attach call) (λ w. env.attached_of w call) >>= λ out.
              pure (attached out))
            (some (λ _. ok (Executor.detach_link link_pin ∷ [])))
          ∷ save_link_node spec.program_id spec.metadata (λ b.
            elim (get as_attached "kernel-attach" b) [
              | Outcome.ok out ↦ ok (
                tcx_details spec.ifname ifindex spec.direction (to_int32 spec.priority) 0 spec.netns
                    nsid,
                out,
              )
              | Outcome.err e ↦ err e
              | Outcome.panic m ↦ panic m
            ])
          ∷ [])

    -- From the check of the listed links on.
    unfoldable pub attach_behind : ProgramRecord → List TcxLinkInfo → Exec World Link
    unfolding to_int32 attach_tcx_plan is_live filter_live_tcx_links compute_tcx_attach_order
        is_attached get direction_name tcx_link_path
    attach_behind prog links =
        if is_attached spec.program_id links
        then fail (plain "program is already attached; detach it first")
        else wrapping "detach stale TCX link" (execute env (Executor.detach_link link_pin))
          >> (filter_live_tcx_links is_live links >>= λ live.
              lift (
                attach_tcx_plan prog.pin_path
                  (compute_tcx_attach_order live (to_int32 spec.priority)))
              >>= λ plan. run (execute env) plan >>= λ b. lift (get as_linked "link" b))

  -- attachTCX
  unfoldable pub attach_tcx_program : TcxAttachSpec → Exec World Link
  unfolding attach_behind get_program direction_name
  attach_tcx_program spec =
      invoke env (World.interface_by_name spec.ifname spec.netns)
        (λ w. env.ifindex_of w spec.ifname spec.netns)
      >>= λ ifindex. get_program env spec.program_id >>= λ prog.
          wrapping "get nsid" (invoke env (World.nsid spec.netns) (λ w. env.nsid_of w spec.netns))
          >>= λ nsid.
              wrapping "list existing TCX links" (
                invoke env (World.list_tcx_links nsid ifindex (direction_name spec.direction))
                  (λ w. env.tcx_links_of w nsid ifindex (direction_name spec.direction)))
              >>= λ links. attach_behind spec ifindex nsid prog links
