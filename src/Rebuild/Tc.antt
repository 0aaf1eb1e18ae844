-- ===== src/Rebuild/Tc.antt =====
-- rebuildTCDispatcher (manager/executor_dispatcher.go).
pub mod Swap
pub mod Failure
use go_bpfman.Prelude.{
  ℕ, ℤ, ◌-◌, Text, Bool, true, false, not, List, [], ◌∷◌, ◌++◌, Option, none, some, length, text_eq,
  ltb, if◌then◌else◌, get_elem?, is_some,
}
use go_bpfman.Errors.{Err, plain, wrap}
use go_bpfman.Exec.{
  Outcome, ok, err, panic, Exec, pure, fail, panics, ◌>>=◌, ◌>>◌, on_error, logged, wrapping,
}
use go_bpfman.Platform.{
  DispatcherType, Key, DispatcherMember, DispatcherMemberSpec, DispatcherSnapshot,
  DispatcherSnapshotSpec, Labels, xdp,
}
use go_bpfman.Links.{TcDirection, LinkKind, tc_details, LinkRecord, Link, new_link_path}
use go_bpfman.Slots.{RebuildSlot, all_slots, sort_rebuild_slots, new_slot_position}
use go_bpfman.Dispatcher.Config.{max_programs, TcConfig, tc_config_for}
use go_bpfman.Dispatcher.Mask.{proceed_on_actions}
use go_bpfman.Layout.{
  dispatcher_prog_path, dispatcher_link_path, dispatcher_revision_dir, extension_link_path,
}
use go_bpfman.Rebuild.Filter.{tc_parent_handle, old_filter, has_old_filter}
use go_bpfman.World.{
  detach_tc_filter, create_tc_filter, TcFilter, Call, nsid, load_tc, attach_tc, create_xdp_link,
  update_xdp_link, replace_snapshot, detach_link, remove_rev_dir, Log, Env, invoke, invoke_unit,
}
use go_bpfman.Rebuild.{
  undo_attach, remove_old, chosen_position, element, to_int32, AttachedExt, ExtensionResult,
  dispatcher_members, cleanup_extensions, cleanup_new_dispatcher, attach_slots, verify_extensions,
  query_snapshot, stored_members, new_revision, lift,
}

-- The arguments of the rebuild: tcRebuildOps, and what goes into the new slot.
pub record TcRequest : Type 0 where
  pub program_id : ℕ
  pub ifindex : ℕ  -- uint32
  pub ifname : Text
  pub direction : TcDirection
  pub disp_type : DispatcherType
  pub netns_path : Text
  pub prog_pin_path : Text
  pub program_name : Text
  pub priority : ℤ
  pub proceed_on : ℕ  -- uint32
  pub metadata : Labels

-- newSlot
unfoldable pub new_slot : TcRequest → RebuildSlot
new_slot q = record {
  prog_pin_path = q.prog_pin_path;
  program_name = q.program_name;
  priority = q.priority;
  proceed_on = q.proceed_on;
  existing_link_id = none;
  program_id = q.program_id;
  ifname = q.ifname;
  metadata = q.metadata;
}

-- What the steps up to the attach loop have fixed.
pub record TcPlan : Type 0 where
  pub key : Key
  pub snap : Option DispatcherSnapshot
  pub slots : List RebuildSlot
  pub config : TcConfig
  pub revision : ℕ

module _ (env : Env) (q : TcRequest) where
  -- From the slots, in the order of the map, to the computed revision.
  unfoldable pub configured : Key → Option DispatcherSnapshot → List RebuildSlot → Exec Log TcPlan
  configured key snap slots = do
    config ← wrapping "create TC dispatcher config" (lift (tc_config_for slots))
    pure (record {
      key = key;
      snap = snap;
      slots = slots;
      config = config;
      revision = new_revision snap;
    })

  -- From the start to the computed revision.
  unfoldable pub prepare : Exec Log TcPlan
  prepare = do
    ns ← wrapping "get nsid" (invoke env (nsid q.netns_path) (λ log. env.nsid_of log q.netns_path))
    let key : Key = record { typ = q.disp_type; nsid = ns; ifindex = q.ifindex }
    snap ← query_snapshot env key
    let slots = all_slots (stored_members snap) (new_slot q)
    if ltb max_programs (length slots)
        then fail (plain "no free dispatcher slots")
        else configured key snap (sort_rebuild_slots slots)

  abbrev pub prog_path : TcPlan → Text
  prog_path p = dispatcher_prog_path env.base p.key p.revision

  -- The removal of a filter of this interface, logged where it fails.
  pub detach_filter : (priority handle : ℕ) → Exec Log (Unit {0})
  detach_filter priority handle = logged (
      invoke_unit env (
        detach_tc_filter q.ifindex q.ifname (tc_parent_handle q.disp_type) priority handle
          q.netns_path))

  -- The swap: create the new filter, then remove the recorded old one.
  unfoldable pub swap : TcPlan → List AttachedExt → Exec Log TcFilter
  unfolding detach_filter
  swap p attached =
      on_error
        (invoke env (create_tc_filter (prog_path p) q.ifindex q.ifname q.direction q.netns_path 0)
          (λ log. env.filter_of log (prog_path p)))
        (λ e. do undo_attach env p.key p.revision attached; fail (wrap "create TC filter" e))
        (λ filter. do
          let old = old_filter p.snap
          if has_old_filter p.snap then detach_filter old.priority old.handle else pure tt
          pure filter)

  -- The old dispatcher's filter, created again under its old handle.
  pub restore_filter : TcPlan → Option DispatcherSnapshot → Exec Log (Unit {0})
  restore_filter p none = pure tt
  restore_filter p (some snap) =
      let old_prog = dispatcher_prog_path env.base p.key snap.revision in
      if has_old_filter (some snap)
      then logged (
          invoke env
            (create_tc_filter old_prog q.ifindex q.ifname q.direction q.netns_path
              (old_filter (some snap)).handle)
            (λ log. env.filter_of log old_prog))
      else pure tt

  -- The way back from the swap when the snapshot cannot be stored.
  pub undo_swap : TcPlan → TcFilter → Exec Log (Unit {0})
  undo_swap p filter = do detach_filter filter.priority filter.handle; restore_filter p p.snap

  -- newSnap
  pub new_snapshot : TcPlan → ℕ → TcFilter → List DispatcherMemberSpec → DispatcherSnapshotSpec
  new_snapshot p dispatcher_id filter members = record {
    key = p.key;
    revision = p.revision;
    runtime = record {
      program_id = dispatcher_id;
      kernel_link_id = none;
      filter_priority = some filter.priority;
      filter_handle = some filter.handle;
      netns_path = q.netns_path;
    };
    members = members;
  }

  pub persist :
      TcPlan
      → List AttachedExt
      → TcFilter
      → DispatcherSnapshotSpec
      → Exec Log (List DispatcherMember)
  persist p attached filter spec =
      on_error (invoke env (replace_snapshot spec) (λ log. env.completed_of log spec))
        (λ e. do undo_swap p filter; undo_attach env p.key p.revision attached; fail e)
        (λ members. pure members)

  -- The link of the new extension.
  new_link : TcPlan → ℕ → ℕ → AttachedExt → DispatcherMember → List ℤ → ExtensionResult
  new_link p dispatcher_id position ext member proceed_on = record {
    link = record {
      link_record = record {
        id = member.link_id;
        program_id = q.program_id;
        kernel_link_id = member.kernel_link_id;
        link_kind = LinkKind.tc;
        pin_path = new_link_path ext.pin_path;
        metadata = member.metadata;
        details = tc_details (record {
          interface = q.ifname;
          ifindex = q.ifindex;
          direction = q.direction;
          priority = to_int32 q.priority;
          position = position;
          proceed_on = proceed_on;
          netns = [];
          nsid = p.key.nsid;
          dispatcher_id = dispatcher_id;
          revision = p.revision;
        });
      };
      status = record {
        kernel = ext.out.kernel_link;
        kernel_seen = is_some ext.out.kernel_link;
        pin_present = not (text_eq ext.pin_path []);
      };
    };
    key = p.key;
    revision = p.revision;
    position = position;
    pin_path = ext.pin_path;
  }

  -- From the stored snapshot to the result.
  pub result : TcPlan → ℕ → List AttachedExt → List DispatcherMember → Exec Log ExtensionResult
  unfolding new_link
  result p dispatcher_id attached members = do
    let position = chosen_position p.slots attached
    ext ← element (get_elem? attached position)
    proceed_on ←
        wrapping "decode TC proceed-on" (lift (proceed_on_actions q.disp_type q.proceed_on))
    member ← element (get_elem? members position)
    pure (new_link p dispatcher_id position ext member proceed_on)

  -- rebuildTCDispatcher
  unfoldable pub rebuild_tc_dispatcher : Exec Log ExtensionResult
  rebuild_tc_dispatcher = do
    p ← prepare
    let prog = dispatcher_prog_path env.base p.key p.revision
    dispatcher_id ←
        wrapping "load TC dispatcher"
          (invoke env (load_tc p.config prog) (λ log. env.program_id_of log prog))
    attached ←
        attach_slots env "attach TC extension" attach_tc (cleanup_new_dispatcher env prog) p.key
          p.revision prog 0 [] p.slots
    verify_extensions env attached
    filter ← swap p attached
    specs ← lift (dispatcher_members p.slots attached)
    members ← persist p attached filter (new_snapshot p dispatcher_id filter specs)
    remove_old env p.key p.snap
    result p dispatcher_id attached members
