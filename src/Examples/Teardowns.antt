-- ===== src/Examples/Teardowns.antt =====
-- A TC attach that fails at its filter, and two detaches: one that fails at the link update, one of
-- the last link.
use go_bpfman.Prelude.{
  ◌++◌, ◌≡◌, refl, ◌⊎◌, inl, inr, pos, Text, codes, List, [], ◌∷◌, map, Option, none, some, arith,
}
use go_bpfman.Errors.{Err, is_not_found, plain, wrap, joined}
use go_bpfman.Exec.{ok, err}
use go_bpfman.Platform.{
  Labels, DispatcherMemberSpec, dispatcher_type_eq, tc_ingress, DispatcherMember,
}
use go_bpfman.Links.{ingress}
use go_bpfman.Slots.{sort_rebuild_slots, all_slots}
use go_bpfman.Actions.{tc_action_from_int32}
use go_bpfman.Dispatcher.Config.{xdp_config_for, tc_config_for}
use go_bpfman.Dispatcher.Mask.{proceed_on_actions}
use go_bpfman.Layout.{extension_link_path, dispatcher_prog_path, dispatcher_revision_dir}
use go_bpfman.World.{
  Event, remove_pin, remove_rev_dir, delete_snapshot, replace_snapshot, load_xdp, Log, Env, done,
  failed, invoke,
}
use go_bpfman.World.Pins.{Leaked}
use go_bpfman.World.Adds.{Reaches}
use go_bpfman.Rebuild.Unlabelled.{Unlabelling}
use go_bpfman.Rebuild.Detach.Labels.{Recorded, remaining, rebuild_dispatcher_for_detach-Unlabelling}
use go_bpfman.Rebuild.{
  dispatcher_members, remove_old, query_snapshot, attach_slots, cleanup_extensions,
  cleanup_new_dispatcher, verify_extensions, undo_attach,
}
use go_bpfman.Rebuild.Tc.{TcRequest, prepare, configured, swap, rebuild_tc_dispatcher}
use go_bpfman.Rebuild.Tc.Failure.{rebuild_tc_dispatcher-err_leaves_no_pin}
use go_bpfman.Rebuild.Empty.{detach_kernel, remove_dispatcher_revision_dir, remove_empty_dispatcher}
use go_bpfman.Rebuild.Empty.Contract.{Attempt, remove_empty_dispatcher-after_detach}
use go_bpfman.Rebuild.Detach.{rebuild_dispatcher_for_detach, without, remaining_slot}
use go_bpfman.Rebuild.Detach.Xdp.{update, new_snapshot, persist, rebuild_xdp_for_detach}
use go_bpfman.Rebuild.Detach.Failure.{rebuild_dispatcher_for_detach-err_leaves_no_pin}
use go_bpfman.Examples.Fixtures.{key, member, snapshot, env}

abbrev before : Log
before =
    done (
      load_xdp
        (record {
          magic = 236;
          dispatcher_version = 2;
          num_progs_enabled = 1;
          is_xdp_frags = 0;
          chain_call_actions = [];
          run_prios = [];
          program_flags = [];
        })
        (codes "/x"))
    ∷ []

-- The last link is gone, and the store is locked.
abbrev detached : Log
detached = (detach_kernel env (snapshot []) before).1

kernel_detached : detach_kernel env (snapshot []) before ≡ (ok tt, detached)
unfolding detach_kernel invoke dispatcher_type_eq
kernel_detached = refl

remove_empty_dispatcher-after_detach_example :
    (pin dir : Event) × Attempt (remove_pin (dispatcher_prog_path (codes "/run") key 3)) pin
    × Attempt (remove_rev_dir (dispatcher_revision_dir (codes "/run") key 3)) dir
    × ((remove_empty_dispatcher env (snapshot []) before
          ≡ (ok tt, done (delete_snapshot key) ∷ dir ∷ pin ∷ detached))
        ⊎ ((e : Err) × (remove_empty_dispatcher env (snapshot []) before ≡ (
          err (joined (wrap "delete dispatcher snapshot" e)),
          failed (delete_snapshot key) e ∷ dir ∷ pin ∷ detached,
        ))))
remove_empty_dispatcher-after_detach_example =
    remove_empty_dispatcher-after_detach env (snapshot []) before detached kernel_detached

-- The rebuild without link 1.
abbrev after : Log
after = (rebuild_dispatcher_for_detach env key 1 before).1

update_error :
    rebuild_dispatcher_for_detach env key 1 before
    ≡ (err (wrap "update XDP dispatcher link" (plain "update")), after)
unfolding rebuild_dispatcher_for_detach without remaining_slot rebuild_xdp_for_detach update
    attach_slots cleanup_extensions verify_extensions remove_dispatcher_revision_dir invoke
    sort_rebuild_slots xdp_config_for dispatcher_type_eq extension_link_path dispatcher_revision_dir
update_error = refl

not_in_dir : ¬ (
    (name : Text) × (codes "/x"
      ≡ dispatcher_revision_dir (codes "/run") key 4 ++ codes "/" ++ name))
unfolding dispatcher_revision_dir
not_in_dir (name, e) = ground (arith, e)

-- The pin that was there before is there after.
old_pin_kept : Leaked (codes "/x") after
unfolding rebuild_dispatcher_for_detach without remaining_slot rebuild_xdp_for_detach update
    attach_slots cleanup_extensions verify_extensions remove_dispatcher_revision_dir invoke
    sort_rebuild_slots xdp_config_for dispatcher_type_eq extension_link_path dispatcher_revision_dir
old_pin_kept = inr (
  not_in_dir,
  inr (
    λ p. ground (arith, p),
    inr (λ x. x, inr (λ x. x, inr (λ x. x, inr (λ x. x, inr (λ x. x, inl refl))))),
  ),
)

rebuild_dispatcher_for_detach-err_leaves_no_pin_example : Leaked (codes "/x") before
rebuild_dispatcher_for_detach-err_leaves_no_pin_example =
    rebuild_dispatcher_for_detach-err_leaves_no_pin env key 1 before after
      (wrap "update XDP dispatcher link" (plain "update")) (λ _. refl) update_error (codes "/x")
      old_pin_kept

-- A first TC attach.
abbrev request : TcRequest
request = record {
  program_id = 5;
  ifindex = 2;
  ifname = codes "eth0";
  direction = ingress;
  disp_type = tc_ingress;
  netns_path = [];
  prog_pin_path = codes "/run/fs/prog_5";
  program_name = codes "pass";
  priority = pos 50;
  proceed_on = 8;
  metadata = [];
}

decodes : proceed_on_actions tc_ingress 8 ≡ ok (pos 2 ∷ [])
unfolding proceed_on_actions tc_action_from_int32
decodes = refl

abbrev after_tc : Log
after_tc = (rebuild_tc_dispatcher env request before).1

filter_error :
    rebuild_tc_dispatcher env request before
    ≡ (err (wrap "create TC filter" (plain "filter")), after_tc)
unfolding rebuild_tc_dispatcher prepare query_snapshot configured attach_slots cleanup_extensions
    cleanup_new_dispatcher undo_attach swap verify_extensions invoke sort_rebuild_slots all_slots
    tc_config_for is_not_found extension_link_path dispatcher_revision_dir
filter_error = refl

old_pin_kept_tc : Leaked (codes "/x") after_tc
unfolding rebuild_tc_dispatcher prepare query_snapshot configured attach_slots cleanup_extensions
    cleanup_new_dispatcher undo_attach swap verify_extensions invoke sort_rebuild_slots all_slots
    tc_config_for is_not_found extension_link_path dispatcher_prog_path dispatcher_revision_dir
old_pin_kept_tc = inr (
  λ p. ground (arith, p),
  inr (
    λ p. ground (arith, p),
    inr (λ x. x, inr (λ x. x, inr (λ x. x, inr (λ x. x, inr (λ x. x, inr (λ x. x, inl refl)))))),
  ),
)

rebuild_tc_dispatcher-err_leaves_no_pin_example : Leaked (codes "/x") before
rebuild_tc_dispatcher-err_leaves_no_pin_example =
    rebuild_tc_dispatcher-err_leaves_no_pin env request (pos 2 ∷ []) before after_tc
      (wrap "create TC filter" (plain "filter")) decodes filter_error (codes "/x") old_pin_kept_tc

-- One remaining member, with a label, and nothing fails.
abbrev labelled : List DispatcherMember
labelled = record (member 2) { metadata = (codes "app", codes "web") ∷ [] } ∷ []

abbrev willing : Env
willing = record env { fails = λ _ _. none; snapshot_of = λ _ _. snapshot (member 3 ∷ labelled) }

-- The labels of the members that were stored last.
stored_labels : Log → Option (List Labels)
stored_labels [] = none
stored_labels (done (replace_snapshot spec) ∷ log) =
    some (map (λ (m : DispatcherMemberSpec). m.metadata) spec.members)
stored_labels (_ ∷ log) = stored_labels log

-- The detach of link 3 loses the label of link 2.
lost : stored_labels (rebuild_dispatcher_for_detach willing key 3 before).1 ≡ some ([] ∷ [])
unfolding stored_labels rebuild_dispatcher_for_detach invoke without dispatcher_type_eq
    rebuild_xdp_for_detach xdp_config_for sort_rebuild_slots attach_slots verify_extensions update
    dispatcher_members remaining_slot persist new_snapshot remove_old cleanup_extensions
lost = refl

rebuild_dispatcher_for_detach-Unlabelling_example :
    Reaches Unlabelling before
      (Recorded willing before (remaining willing key 3 before))
      (rebuild_dispatcher_for_detach willing key 3 before)
rebuild_dispatcher_for_detach-Unlabelling_example =
    rebuild_dispatcher_for_detach-Unlabelling willing key 3 before
