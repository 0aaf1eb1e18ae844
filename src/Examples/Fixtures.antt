-- ===== src/Examples/Fixtures.antt =====
-- A key, a snapshot and an environment that the runs share.
use go_bpfman.Prelude.{ℕ, pos, codes, List, [], ◌∷◌, Option, none, some, false}
use go_bpfman.Errors.{Err, record_not_found, plain}
use go_bpfman.Platform.{DispatcherType, xdp, tc_ingress, Key, DispatcherMember, DispatcherSnapshot}
use go_bpfman.World.{
  Call, get_snapshot, create_tc_filter, update_xdp_link, delete_snapshot, Log, Env,
}

abbrev pub key : Key
key = record { typ = xdp; nsid = 7; ifindex = 2 }

abbrev pub member : ℕ → DispatcherMember
member id = record {
  program_id = id;
  program_name = codes "pass";
  prog_pin_path = codes "/run/fs/prog";
  link_id = id;
  kernel_link_id = none;
  link_pin_path = [];
  position = 0;
  priority = pos 50;
  proceed_on = 4;
  ifname = codes "eth0";
  metadata = [];
}

abbrev pub snapshot : List DispatcherMember → DispatcherSnapshot
snapshot members = record {
  key = key;
  revision = 3;
  runtime = record {
    program_id = 40;
    kernel_link_id = some 9;
    filter_priority = none;
    filter_handle = none;
    netns_path = [];
  };
  members = members;
}

-- No TC dispatcher is stored.
abbrev pub absent : DispatcherType → Option Err
absent tc_ingress = some record_not_found
absent _ = none

abbrev pub refuses : Log → Call → Option Err
refuses _ (create_tc_filter _ _ _ _ _ _) = some (plain "filter")
refuses _ (update_xdp_link _ _) = some (plain "update")
refuses _ (delete_snapshot _) = some (plain "locked")
refuses _ (get_snapshot k) = absent k.typ
refuses _ _ = none

abbrev pub env : Env
env = record {
  fails = refuses;
  nsid_of = λ _ _. 7;
  netns_missing = λ _ _. false;
  snapshot_of = λ _ k. record (snapshot (member 1 ∷ member 2 ∷ [])) { key = k };
  completed_of = λ _ _. [];
  program_id_of = λ _ _. 40;
  attach_output_of = λ _ _. record { kernel_link_id = none; kernel_link = none; pin_path = [] };
  xdp_link_id_of = λ _ _. 3;
  filter_of = λ _ _. record { dispatcher_id = 40; handle = 1; priority = 50 };
  base = codes "/run";
}
