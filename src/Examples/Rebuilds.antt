-- ===== src/Examples/Rebuilds.antt =====
-- A first XDP attach that fails at its attach call.
use go_bpfman.Prelude.{◌≡◌, refl, pos, codes, [], ◌∷◌, Option, none, some, false, inl, inr, arith}
use go_bpfman.Errors.{Err, is_not_found, record_not_found, plain, wrap}
use go_bpfman.Exec.{ok, err}
use go_bpfman.World.{Call, invoke, get_snapshot, attach_xdp, Log, Env, done, load_tc}
use go_bpfman.World.Pins.{Leaked}
use go_bpfman.Platform.{xdp, DispatcherSnapshot}
use go_bpfman.Dispatcher.Config.{xdp_config_for}
use go_bpfman.Dispatcher.Mask.{proceed_on_actions}
use go_bpfman.Rebuild.{query_snapshot, attach_slots, cleanup_extensions, cleanup_new_dispatcher}
use go_bpfman.Layout.{dispatcher_prog_path, dispatcher_revision_dir}
use go_bpfman.Slots.{sort_rebuild_slots, all_slots}
use go_bpfman.Actions.{xdp_action_from_int32}
use go_bpfman.Rebuild.Xdp.{XdpRequest, prepare, configured, rebuild_xdp_dispatcher}
use go_bpfman.Rebuild.Xdp.Failure.{rebuild_xdp_dispatcher-err_leaves_no_pin}

abbrev attach_fails : Log → Call → Option Err
attach_fails _ (get_snapshot _) = some record_not_found
attach_fails _ (attach_xdp _) = some (plain "attach")
attach_fails _ _ = none

abbrev empty_snapshot : DispatcherSnapshot
empty_snapshot = record {
  key = record { typ = xdp; nsid = 0; ifindex = 0 };
  revision = 0;
  runtime = record {
    program_id = 0;
    kernel_link_id = none;
    filter_priority = none;
    filter_handle = none;
    netns_path = [];
  };
  members = [];
}

abbrev env : Env
env = record {
  fails = attach_fails;
  nsid_of = λ _ _. 7;
  netns_missing = λ _ _. false;
  snapshot_of = λ _ _. empty_snapshot;
  completed_of = λ _ _. [];
  program_id_of = λ _ _. 40;
  attach_output_of = λ _ _. record { kernel_link_id = none; kernel_link = none; pin_path = [] };
  xdp_link_id_of = λ _ _. 3;
  filter_of = λ _ _. record { dispatcher_id = 40; handle = 1; priority = 50 };
  base = codes "/run";
}

abbrev request : XdpRequest
request = record {
  program_id = 5;
  ifindex = 2;
  ifname = codes "eth0";
  netns_path = [];
  prog_pin_path = codes "/run/fs/prog_5";
  program_name = codes "pass";
  priority = pos 50;
  proceed_on = 4;
  metadata = [];
}

decodes : proceed_on_actions xdp 4 ≡ ok (pos 2 ∷ [])
unfolding proceed_on_actions xdp_action_from_int32
decodes = refl

abbrev before : Log
before =
    done (
      load_tc (record { num_progs_enabled = 1; chain_call_actions = []; run_prios = [] })
        (codes "/x"))
    ∷ []

abbrev after : Log
after = (rebuild_xdp_dispatcher env request before).1

attach_error :
    rebuild_xdp_dispatcher env request before
    ≡ (err (wrap "attach XDP extension" (plain "attach")), after)
unfolding rebuild_xdp_dispatcher prepare query_snapshot configured attach_slots cleanup_extensions
    cleanup_new_dispatcher invoke sort_rebuild_slots all_slots xdp_config_for is_not_found
attach_error = refl

-- The pin that was there before is there after.
old_pin_kept : Leaked (codes "/x") after
unfolding rebuild_xdp_dispatcher prepare query_snapshot configured attach_slots cleanup_extensions
    cleanup_new_dispatcher invoke sort_rebuild_slots all_slots xdp_config_for is_not_found
    dispatcher_prog_path dispatcher_revision_dir
old_pin_kept =
    inr (λ p. ground (arith, p), inr (λ x. x, inr (λ x. x, inr (λ x. x, inr (λ x. x, inl refl)))))

rebuild_xdp_dispatcher-err_leaves_no_pin_example : Leaked (codes "/x") before
rebuild_xdp_dispatcher-err_leaves_no_pin_example =
    rebuild_xdp_dispatcher-err_leaves_no_pin env request (pos 2 ∷ []) before after
      (wrap "attach XDP extension" (plain "attach")) decodes attach_error (codes "/x") old_pin_kept
