-- ===== src/Rebuild/Detach/Tc.antt =====
-- rebuildTCForDetach (manager/executor_dispatcher.go).
pub mod Failure
pub mod Unlabelled
use go_bpfman.Prelude.{ℕ, Text, Bool, true, false, List, [], ◌∷◌, Option, none, some, if◌then◌else◌}
use go_bpfman.Errors.{Err, wrap}
use go_bpfman.Exec.{Exec, pure, fail, ◌>>=◌, ◌>>◌, on_error, logged, wrapping}
use go_bpfman.Platform.{
  DispatcherType, tc_ingress, dispatcher_type_eq, DispatcherMemberSpec, DispatcherSnapshot,
  DispatcherSnapshotSpec,
}
use go_bpfman.Links.{TcDirection, ingress, egress}
use go_bpfman.Slots.{RebuildSlot}
use go_bpfman.Dispatcher.Config.{tc_config_for}
use go_bpfman.Layout.{dispatcher_prog_path}
use go_bpfman.World.{
  load_tc, attach_tc, create_tc_filter, detach_tc_filter, replace_snapshot, TcFilter, Log, Env,
  invoke, invoke_unit,
}
use go_bpfman.Rebuild.{
  AttachedExt, dispatcher_members, cleanup_extensions, attach_slots, verify_extensions, remove_old,
  lift,
}
use go_bpfman.Rebuild.Filter.{tc_parent_handle, old_filter, has_old_filter, snap_interface_name}
use go_bpfman.Rebuild.Detach.Steps.{cleanup_new_revision}

-- The direction of the dispatcher's type.
unfoldable pub direction_of : DispatcherType → TcDirection
direction_of t = if dispatcher_type_eq t tc_ingress then ingress else egress

module _ (env : Env) (snap : DispatcherSnapshot) (revision : ℕ) where
  abbrev pub create : Text → (handle : ℕ) → Exec Log TcFilter
  create prog handle =
      invoke env
        (create_tc_filter prog snap.key.ifindex (snap_interface_name snap)
          (direction_of snap.key.typ) snap.runtime.netns_path handle)
        (λ log. env.filter_of log prog)

  pub detach_filter : (priority handle : ℕ) → Exec Log (Unit {0})
  detach_filter priority handle = logged (
      invoke_unit env (
        detach_tc_filter snap.key.ifindex (snap_interface_name snap) (tc_parent_handle snap.key.typ)
          priority handle snap.runtime.netns_path))

  -- The new filter, then the removal of the old one.
  pub swap : Text → List AttachedExt → Exec Log TcFilter
  swap prog attached =
      on_error (create prog 0)
        (λ e. do
          cleanup_extensions env attached
          cleanup_new_revision env snap.key revision
          fail (wrap "create TC filter for detach rebuild" e))
        (λ filter. do
          let old = old_filter (some snap)
          if has_old_filter (some snap) then detach_filter old.priority old.handle else pure tt
          pure filter)

  -- newSnap
  pub new_snapshot : TcFilter → List DispatcherMemberSpec → DispatcherSnapshotSpec
  new_snapshot filter members = record {
    key = snap.key;
    revision = revision;
    runtime = record {
      program_id = filter.dispatcher_id;
      kernel_link_id = none;
      filter_priority = some filter.priority;
      filter_handle = some filter.handle;
      netns_path = snap.runtime.netns_path;
    };
    members = members;
  }

  pub undo_swap : TcFilter → Exec Log (Unit {0})
  undo_swap filter = do
    detach_filter filter.priority filter.handle
    if has_old_filter (some snap)
        then logged (
            create (dispatcher_prog_path env.base snap.key snap.revision)
              (old_filter (some snap)).handle)
        else pure tt

  pub persist : TcFilter → List AttachedExt → DispatcherSnapshotSpec → Exec Log (Unit {0})
  persist filter attached spec =
      on_error (invoke_unit env (replace_snapshot spec))
        (λ e. do
          undo_swap filter
          cleanup_extensions env attached
          cleanup_new_revision env snap.key revision
          fail e)
        (λ _. pure tt)

  -- rebuildTCForDetach; the position that `attach_slots` records is not read here.
  unfoldable pub rebuild_tc_for_detach : List RebuildSlot → Text → Exec Log (Unit {0})
  rebuild_tc_for_detach slots prog = do
    config ← wrapping "create TC dispatcher config for detach rebuild" (lift (tc_config_for slots))
    wrapping "load TC dispatcher for detach rebuild"
        (invoke env (load_tc config prog) (λ log. env.program_id_of log prog))
    attached ←
        attach_slots env "re-attach TC extension" attach_tc
          (cleanup_new_revision env snap.key revision) snap.key revision prog 0 [] slots
    verify_extensions env attached
    filter ← swap prog attached
    specs ← lift (dispatcher_members slots attached)
    persist filter attached (new_snapshot filter specs)
    remove_old env snap.key (some snap)
