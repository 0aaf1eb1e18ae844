-- ===== src/Rebuild/Detach.antt =====
-- rebuildDispatcherForDetach (manager/executor_dispatcher.go).
pub mod Steps
pub mod Xdp
pub mod Tc
pub mod Failure
pub mod Labels
use go_bpfman.Prelude.{
  ℕ, Text, Bool, true, false, List, [], ◌∷◌, map, Option, none, some, ◌==◌, text_eq, if◌then◌else◌,
}
use go_bpfman.Exec.{ok, Exec, pure, ◌>>=◌, on_error, wrapping}
use go_bpfman.Platform.{xdp, dispatcher_type_eq, Key, DispatcherMember, DispatcherSnapshot}
use go_bpfman.Slots.{RebuildSlot, sort_rebuild_slots}
use go_bpfman.Layout.{dispatcher_prog_path}
use go_bpfman.World.{get_snapshot, stat, Log, Env, invoke, invoke_unit}
use go_bpfman.Rebuild.{next_revision}
use go_bpfman.Rebuild.Empty.{remove_empty_dispatcher}
use go_bpfman.Rebuild.Detach.Xdp.{rebuild_xdp_for_detach}
use go_bpfman.Rebuild.Detach.Tc.{rebuild_tc_for_detach}

-- filtered: the members but the detached one.
unfoldable pub without : ℕ → List DispatcherMember → List DispatcherMember
without link_id [] = []
without link_id (m ∷ members) =
    let rest = without link_id members in if m.link_id == link_id then rest else m ∷ rest

-- A slot for a remaining member; its metadata is not copied.
unfoldable pub remaining_slot : DispatcherMember → RebuildSlot
remaining_slot m = record {
  prog_pin_path = m.prog_pin_path;
  program_name = m.program_name;
  priority = m.priority;
  proceed_on = m.proceed_on;
  existing_link_id = some m.link_id;
  program_id = m.program_id;
  ifname = m.ifname;
  metadata = [];
}

abbrev pub slots_of : List DispatcherMember → List RebuildSlot
slots_of members = sort_rebuild_slots (map remaining_slot members)

module _ (env : Env) where
  -- errors.Is(err, os.ErrNotExist) on the netns path, where one is recorded
  pub netns_gone : Text → Exec Log Bool
  netns_gone path =
      if text_eq path []
      then pure false
      else on_error (invoke_unit env (stat path)) (λ e log. (ok (env.netns_missing log path), log))
          (λ _. pure false)

  -- The rebuild with the remaining members.
  pub rebuild_remaining : Key → DispatcherSnapshot → Exec Log (Unit {0})
  rebuild_remaining key snap =
      let revision = next_revision snap.revision in
      let prog = dispatcher_prog_path env.base key revision in
      let slots = slots_of snap.members in
      if dispatcher_type_eq key.typ xdp
      then rebuild_xdp_for_detach env snap revision slots prog
      else rebuild_tc_for_detach env snap revision slots prog

  -- From the members that remain.
  pub rebuild_or_remove : Key → DispatcherSnapshot → List DispatcherMember → Exec Log (Unit {0})
  unfolding netns_gone rebuild_remaining
  rebuild_or_remove key snap [] = remove_empty_dispatcher env snap
  rebuild_or_remove key snap (m ∷ members) =
      netns_gone snap.runtime.netns_path
      >>= (λ gone. if gone then remove_empty_dispatcher env snap else rebuild_remaining key snap)

  -- rebuildDispatcherForDetach
  unfoldable pub rebuild_dispatcher_for_detach : Key → ℕ → Exec Log (Unit {0})
  unfolding rebuild_or_remove
  rebuild_dispatcher_for_detach key link_id = do
    stored ←
        wrapping "get dispatcher snapshot"
          (invoke env (get_snapshot key) (λ log. env.snapshot_of log key))
    let snap : DispatcherSnapshot = record stored { members = without link_id stored.members }
    rebuild_or_remove key snap snap.members
