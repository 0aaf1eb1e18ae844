-- ===== src/Rebuild/Xdp.antt =====
-- rebuildXDPDispatcher (manager/executor_dispatcher.go).
pub mod Swap
pub mod Failure
use go_bpfman.Prelude.{
  ℕ, ℤ, ◌-◌, Text, Bool, true, false, not, List, [], ◌∷◌, ◌++◌, Option, none, some, length, text_eq,
  ltb, if◌then◌else◌, get_elem?, is_some,
}
use go_bpfman.Errors.{Err, plain, wrap}
use go_bpfman.Exec.{
  Outcome, ok, err, panic, Exec, pure, fail, panics, ◌>>=◌, ◌>>◌, on_error, logged, wrapping,
}
use go_bpfman.Platform.{
  Key, DispatcherMember, DispatcherMemberSpec, DispatcherSnapshot, DispatcherSnapshotSpec, Labels,
  xdp,
}
use go_bpfman.Links.{LinkKind, xdp_details, LinkRecord, Link, new_link_path}
use go_bpfman.Slots.{RebuildSlot, all_slots, sort_rebuild_slots, new_slot_position}
use go_bpfman.Dispatcher.Config.{max_programs, XdpConfig, xdp_config_for}
use go_bpfman.Dispatcher.Mask.{proceed_on_actions}
use go_bpfman.Layout.{
  dispatcher_prog_path, dispatcher_link_path, dispatcher_revision_dir, extension_link_path,
}
use go_bpfman.World.{
  Call, nsid, load_xdp, attach_xdp, create_xdp_link, update_xdp_link, replace_snapshot, detach_link,
  remove_rev_dir, Log, Env, invoke, invoke_unit,
}
use go_bpfman.Rebuild.{
  undo_attach, remove_old, chosen_position, element, to_int32, AttachedExt, ExtensionResult,
  dispatcher_members, cleanup_extensions, cleanup_new_dispatcher, attach_slots, verify_extensions,
  query_snapshot, stored_members, new_revision, lift,
}

-- The arguments of the rebuild: xdpRebuildOps, and what goes into the new slot.
pub record XdpRequest : Type 0 where
  pub program_id : ℕ
  pub ifindex : ℕ  -- uint32
  pub ifname : Text
  pub netns_path : Text
  pub prog_pin_path : Text
  pub program_name : Text
  pub priority : ℤ
  pub proceed_on : ℕ  -- uint32
  pub metadata : Labels

-- newSlot
unfoldable pub new_slot : XdpRequest → RebuildSlot
new_slot q = record {
  prog_pin_path = q.prog_pin_path;
  program_name = q.program_name;
  priority = q.priority;
  proceed_on = q.proceed_on;
  existing_link_id = none;
  program_id = q.program_id;
  ifname = q.ifname;
  metadata = q.metadata;
}

-- What the steps up to the attach loop have fixed.
pub record XdpPlan : Type 0 where
  pub key : Key
  pub snap : Option DispatcherSnapshot
  pub slots : List RebuildSlot
  pub config : XdpConfig
  pub revision : ℕ

module _ (env : Env) (q : XdpRequest) where
  -- From the slots, in the order of the map, to the computed revision.
  unfoldable pub configured : Key → Option DispatcherSnapshot → List RebuildSlot → Exec Log XdpPlan
  configured key snap slots = do
    config ← wrapping "create XDP dispatcher config" (lift (xdp_config_for slots))
    pure (record {
      key = key;
      snap = snap;
      slots = slots;
      config = config;
      revision = new_revision snap;
    })

  -- From the start to the computed revision.
  unfoldable pub prepare : Exec Log XdpPlan
  prepare = do
    ns ← wrapping "get nsid" (invoke env (nsid q.netns_path) (λ log. env.nsid_of log q.netns_path))
    let key : Key = record { typ = xdp; nsid = ns; ifindex = q.ifindex }
    snap ← query_snapshot env key
    let slots = all_slots (stored_members snap) (new_slot q)
    if ltb max_programs (length slots)
        then fail (plain "no free dispatcher slots")
        else configured key snap (sort_rebuild_slots slots)

  -- The swap: create the dispatcher link on the first attach, update it otherwise.
  pub swap : XdpPlan → List AttachedExt → Option DispatcherSnapshot → Exec Log ℕ
  swap p attached none =
      let prog = dispatcher_prog_path env.base p.key p.revision in
      let link = dispatcher_link_path env.base p.key in
      on_error
        (invoke env (create_xdp_link prog q.ifindex link q.netns_path)
          (λ log. env.xdp_link_id_of log link))
        (λ e. do undo_attach env p.key p.revision attached; fail (wrap "create XDP link" e))
        (λ id. pure id)
  swap p attached (some snap) =
      let prog = dispatcher_prog_path env.base p.key p.revision in
      let link = dispatcher_link_path env.base p.key in
      on_error (invoke_unit env (update_xdp_link link prog))
        (λ e. do
          undo_attach env p.key p.revision attached
          fail (wrap "update XDP dispatcher link" e))
        (λ _. pure (elim snap.runtime.kernel_link_id [ none ↦ 0 | some id ↦ id ]))

  -- The way back from the swap when the snapshot cannot be stored.
  pub undo_swap : XdpPlan → Option DispatcherSnapshot → Exec Log (Unit {0})
  undo_swap p none = logged (invoke_unit env (detach_link (dispatcher_link_path env.base p.key)))
  undo_swap p (some snap) =
      let link = dispatcher_link_path env.base p.key in
      logged
        (invoke_unit env (update_xdp_link link (dispatcher_prog_path env.base p.key snap.revision)))

  -- newSnap
  pub new_snapshot : XdpPlan → ℕ → ℕ → List DispatcherMemberSpec → DispatcherSnapshotSpec
  new_snapshot p dispatcher_id link_id members = record {
    key = p.key;
    revision = p.revision;
    runtime = record {
      program_id = dispatcher_id;
      kernel_link_id = some link_id;
      filter_priority = none;
      filter_handle = none;
      netns_path = q.netns_path;
    };
    members = members;
  }

  pub persist :
      XdpPlan → List AttachedExt → DispatcherSnapshotSpec → Exec Log (List DispatcherMember)
  persist p attached spec =
      on_error (invoke env (replace_snapshot spec) (λ log. env.completed_of log spec))
        (λ e. do undo_swap p p.snap; undo_attach env p.key p.revision attached; fail e)
        (λ members. pure members)

  -- The link of the new extension.
  new_link : XdpPlan → ℕ → ℕ → AttachedExt → DispatcherMember → List ℤ → ExtensionResult
  new_link p dispatcher_id position ext member proceed_on = record {
    link = record {
      link_record = record {
        id = member.link_id;
        program_id = q.program_id;
        kernel_link_id = member.kernel_link_id;
        link_kind = LinkKind.xdp;
        pin_path = new_link_path ext.pin_path;
        metadata = member.metadata;
        details = xdp_details (record {
          interface = q.ifname;
          ifindex = q.ifindex;
          priority = to_int32 q.priority;
          position = position;
          proceed_on = proceed_on;
          netns = [];
          nsid = p.key.nsid;
          dispatcher_id = dispatcher_id;
          revision = p.revision;
        });
      };
      status = record {
        kernel = ext.out.kernel_link;
        kernel_seen = is_some ext.out.kernel_link;
        pin_present = not (text_eq ext.pin_path []);
      };
    };
    key = p.key;
    revision = p.revision;
    position = position;
    pin_path = ext.pin_path;
  }

  -- From the stored snapshot to the result.
  pub result : XdpPlan → ℕ → List AttachedExt → List DispatcherMember → Exec Log ExtensionResult
  unfolding new_link
  result p dispatcher_id attached members = do
    let position = chosen_position p.slots attached
    ext ← element (get_elem? attached position)
    proceed_on ← wrapping "decode XDP proceed-on" (lift (proceed_on_actions xdp q.proceed_on))
    member ← element (get_elem? members position)
    pure (new_link p dispatcher_id position ext member proceed_on)

  -- rebuildXDPDispatcher
  unfoldable pub rebuild_xdp_dispatcher : Exec Log ExtensionResult
  rebuild_xdp_dispatcher = do
    p ← prepare
    let prog = dispatcher_prog_path env.base p.key p.revision
    dispatcher_id ←
        wrapping "load XDP dispatcher"
          (invoke env (load_xdp p.config prog) (λ log. env.program_id_of log prog))
    attached ←
        attach_slots env "attach XDP extension" attach_xdp (cleanup_new_dispatcher env prog) p.key
          p.revision prog 0 [] p.slots
    verify_extensions env attached
    link_id ← swap p attached p.snap
    specs ← lift (dispatcher_members p.slots attached)
    members ← persist p attached (new_snapshot p dispatcher_id link_id specs)
    remove_old env p.key p.snap
    result p dispatcher_id attached members
