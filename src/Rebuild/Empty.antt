-- ===== src/Rebuild/Empty.antt =====
-- removeEmptyDispatcher and removeDispatcherIfEmpty (manager/executor_dispatcher.go), and
-- tcpolicy.ReclaimClsactOnDetach (internal/tcpolicy/tcpolicy.go).
pub mod Contract
pub mod Keeps
pub mod Unlabelled
use go_bpfman.Prelude.{
  ℕ, Bool, true, false, ◌||◌, ◌==◌, List, [], ◌∷◌, Option, none, some, if◌then◌else◌,
}
use go_bpfman.Errors.{Err, wrap, errors_join}
use go_bpfman.Exec.{Outcome, ok, err, Exec, pure, fail, ◌>>=◌, ◌>>◌, logged, attempt, wrapping}
use go_bpfman.Platform.{
  DispatcherType, tc_ingress, tc_egress, dispatcher_type_eq, Key, DispatcherSnapshot,
}
use go_bpfman.Layout.{dispatcher_link_path, dispatcher_prog_path, dispatcher_revision_dir}
use go_bpfman.World.{
  detach_tc_filter, remove_clsact, detach_link, remove_pin, remove_rev_dir, delete_snapshot,
  get_snapshot, Log, Env, invoke, invoke_unit,
}
use go_bpfman.Rebuild.Filter.{tc_parent_handle, snap_interface_name}

-- ReclaimClsactOnDetach
abbrev pub reclaim_clsact_on_detach : Bool
reclaim_clsact_on_detach = false

-- isTCDispatcherType
abbrev pub is_tc_dispatcher_type : DispatcherType → Bool
is_tc_dispatcher_type t = dispatcher_type_eq t tc_ingress || dispatcher_type_eq t tc_egress

abbrev or_zero : Option ℕ → ℕ
or_zero none = 0
or_zero (some n) = n

-- `errors.Join(errs...)` as the result of a function
abbrev returned : Option Err → Exec Log (Unit {0})
returned none = pure tt
returned (some e) = fail e

abbrev delete_errors : Option Err → List Err
delete_errors none = []
delete_errors (some e) = wrap "delete dispatcher snapshot" e ∷ []

module _ (env : Env) where
  -- The filter with the recorded handle; nothing is recorded by a handle of zero.
  pub remove_recorded_filter : DispatcherSnapshot → Option ℕ → Exec Log (Unit {0})
  remove_recorded_filter snap none = pure tt
  remove_recorded_filter snap (some handle) =
      if handle == 0
      then pure tt
      else invoke_unit env (
          detach_tc_filter snap.key.ifindex (snap_interface_name snap)
            (tc_parent_handle snap.key.typ) (or_zero snap.runtime.filter_priority) handle
            snap.runtime.netns_path)

  -- detachTCDispatcherFilter
  pub detach_tc_dispatcher_filter : DispatcherSnapshot → Exec Log (Unit {0})
  unfolding remove_recorded_filter
  detach_tc_dispatcher_filter snap = do
    remove_recorded_filter snap snap.runtime.filter_handle
    if reclaim_clsact_on_detach
        then invoke_unit env
            (remove_clsact snap.key.ifindex (snap_interface_name snap) snap.runtime.netns_path)
        else pure tt

  -- detachXDPOuterLink
  pub detach_xdp_outer_link : Key → Exec Log (Unit {0})
  detach_xdp_outer_link key = invoke_unit env (detach_link (dispatcher_link_path env.base key))

  -- The point of no return.
  unfoldable pub detach_kernel : DispatcherSnapshot → Exec Log (Unit {0})
  unfolding detach_tc_dispatcher_filter detach_xdp_outer_link
  detach_kernel snap =
      if is_tc_dispatcher_type snap.key.typ
      then wrapping "detach TC dispatcher filter" (detach_tc_dispatcher_filter snap)
      else wrapping "detach XDP outer link" (detach_xdp_outer_link snap.key)

  -- removeDispatcherProgPin, removeDispatcherRevisionDir, deleteDispatcherSnapshot
  pub remove_dispatcher_prog_pin : Key → ℕ → Exec Log (Unit {0})
  remove_dispatcher_prog_pin key revision =
      invoke_unit env (remove_pin (dispatcher_prog_path env.base key revision))

  unfoldable pub remove_dispatcher_revision_dir : Key → ℕ → Exec Log (Unit {0})
  remove_dispatcher_revision_dir key revision =
      invoke_unit env (remove_rev_dir (dispatcher_revision_dir env.base key revision))

  pub delete_dispatcher_snapshot : Key → Exec Log (Unit {0})
  delete_dispatcher_snapshot key = invoke_unit env (delete_snapshot key)

  -- removeEmptyDispatcher
  unfoldable pub remove_empty_dispatcher : DispatcherSnapshot → Exec Log (Unit {0})
  unfolding detach_kernel remove_dispatcher_prog_pin remove_dispatcher_revision_dir
      delete_dispatcher_snapshot
  remove_empty_dispatcher snap = do
    detach_kernel snap
    logged (remove_dispatcher_prog_pin snap.key snap.revision)
    logged (remove_dispatcher_revision_dir snap.key snap.revision)
    failure ← attempt (delete_dispatcher_snapshot snap.key)
    returned (errors_join (delete_errors failure))

  -- removeDispatcherIfEmpty
  unfoldable pub remove_dispatcher_if_empty : Key → Exec Log (Unit {0})
  remove_dispatcher_if_empty key = do
    snap ←
        wrapping "get dispatcher snapshot"
          (invoke env (get_snapshot key) (λ log. env.snapshot_of log key))
    elim snap.members [ [] ↦ remove_empty_dispatcher snap | m ∷ rest ↦ pure tt ]
