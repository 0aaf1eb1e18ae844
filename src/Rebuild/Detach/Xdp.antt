-- ===== src/Rebuild/Detach/Xdp.antt =====
-- rebuildXDPForDetach (manager/executor_dispatcher.go).
pub mod Failure
pub mod Unlabelled
use go_bpfman.Prelude.{ℕ, Text, List, [], ◌∷◌, Option, none, some}
use go_bpfman.Errors.{Err, wrap}
use go_bpfman.Exec.{Exec, pure, fail, ◌>>=◌, ◌>>◌, on_error, logged, wrapping}
use go_bpfman.Platform.{DispatcherMemberSpec, DispatcherSnapshot, DispatcherSnapshotSpec}
use go_bpfman.Slots.{RebuildSlot}
use go_bpfman.Dispatcher.Config.{xdp_config_for}
use go_bpfman.Layout.{dispatcher_link_path, dispatcher_prog_path}
use go_bpfman.World.{
  load_xdp, attach_xdp, update_xdp_link, replace_snapshot, Log, Env, invoke, invoke_unit,
}
use go_bpfman.Rebuild.{
  AttachedExt, dispatcher_members, cleanup_extensions, attach_slots, verify_extensions, remove_old,
  lift,
}
use go_bpfman.Rebuild.Detach.Steps.{cleanup_new_revision}

module _ (env : Env) (snap : DispatcherSnapshot) (revision : ℕ) where
  -- Swap link.
  unfoldable pub update : Text → List AttachedExt → Exec Log (Unit {0})
  update prog attached =
      on_error (invoke_unit env (update_xdp_link (dispatcher_link_path env.base snap.key) prog))
        (λ e. do
          cleanup_extensions env attached
          cleanup_new_revision env snap.key revision
          fail (wrap "update XDP dispatcher link" e))
        (λ _. pure tt)

  -- newSnap
  unfoldable pub new_snapshot : ℕ → List DispatcherMemberSpec → DispatcherSnapshotSpec
  new_snapshot dispatcher_id members = record {
    key = snap.key;
    revision = revision;
    runtime = record {
      program_id = dispatcher_id;
      kernel_link_id = snap.runtime.kernel_link_id;
      filter_priority = none;
      filter_handle = none;
      netns_path = snap.runtime.netns_path;
    };
    members = members;
  }

  unfoldable pub persist : List AttachedExt → DispatcherSnapshotSpec → Exec Log (Unit {0})
  persist attached spec =
      let link = dispatcher_link_path env.base snap.key in
      let old_prog = dispatcher_prog_path env.base snap.key snap.revision in
      on_error (invoke_unit env (replace_snapshot spec))
        (λ e. do
          logged (invoke_unit env (update_xdp_link link old_prog))
          cleanup_extensions env attached
          cleanup_new_revision env snap.key revision
          fail e)
        (λ _. pure tt)

  -- rebuildXDPForDetach; the position that `attach_slots` records is not read here.
  unfoldable pub rebuild_xdp_for_detach : List RebuildSlot → Text → Exec Log (Unit {0})
  rebuild_xdp_for_detach slots prog = do
    config ←
        wrapping "create XDP dispatcher config for detach rebuild" (lift (xdp_config_for slots))
    dispatcher_id ←
        wrapping "load XDP dispatcher for detach rebuild"
          (invoke env (load_xdp config prog) (λ log. env.program_id_of log prog))
    attached ←
        attach_slots env "re-attach XDP extension" attach_xdp
          (cleanup_new_revision env snap.key revision) snap.key revision prog 0 [] slots
    verify_extensions env attached
    update prog attached
    specs ← lift (dispatcher_members slots attached)
    persist attached (new_snapshot dispatcher_id specs)
    remove_old env snap.key (some snap)
