-- ===== src/Examples/Chains.antt =====
-- Slots, positions and configurations at concrete members.
use go_bpfman.Prelude.{
  In, ◌↔◌, ◌≡◌, refl, ℕ, ℤ, pos, negsuc, codes, List, [], ◌∷◌, none, some, arith,
}
use go_bpfman.Exec.{ok}
use go_bpfman.Platform.{tc_ingress, DispatcherMember}
use go_bpfman.Actions.{tc_action_from_int32}
use go_bpfman.Dispatcher.Mask.{proceed_on_mask, proceed_on_actions}
use go_bpfman.Dispatcher.Mask.Codec.{proceed_on_actions-proceed_on_mask}
use go_bpfman.Slots.{RebuildSlot, all_slots, sort_rebuild_slots, new_slot_position}
use go_bpfman.Slots.Order.{IsSorted, sort_rebuild_slots-IsSorted_perm}
use go_bpfman.Slots.Position.{count_below, new_slot_position-eq}
use go_bpfman.Dispatcher.Config.{xdp_config_for, tc_config_for}
use go_bpfman.Dispatcher.Config.Chain.{xdp_config_for-ok, tc_config_for-ok}
use mathlib.Core.List.{Perm}

abbrev member : ℕ → ℤ → DispatcherMember
member id p = record {
  program_id = id;
  program_name = codes "old";
  prog_pin_path = [];
  link_id = id;
  kernel_link_id = none;
  link_pin_path = [];
  position = 0;
  priority = p;
  proceed_on = 4;
  ifname = codes "eth0";
  metadata = [];
}

abbrev new : RebuildSlot
new = record {
  prog_pin_path = [];
  program_name = codes "new";
  priority = pos 50;
  proceed_on = 12;
  existing_link_id = none;
  program_id = 9;
  ifname = codes "eth0";
  metadata = [];
}

abbrev members : List DispatcherMember
members = member 1 (pos 50) ∷ member 2 (negsuc 0) ∷ member 3 (pos 100) ∷ []

sort_rebuild_slots-IsSorted_perm_example :
    Perm (sort_rebuild_slots (all_slots members new)) (all_slots members new)
    × IsSorted (sort_rebuild_slots (all_slots members new))
sort_rebuild_slots-IsSorted_perm_example = sort_rebuild_slots-IsSorted_perm (all_slots members new)

new_slot_position-eq_example :
    new_slot_position (sort_rebuild_slots (all_slots members new))
    ≡ some (count_below (pos 50) members)
new_slot_position-eq_example = new_slot_position-eq new refl members

-- The new slot goes behind the member of priority -1 and in front of the other two.
position_is_one : new_slot_position (sort_rebuild_slots (all_slots members new)) ≡ some 1
unfolding new_slot_position sort_rebuild_slots all_slots
position_is_one = refl

abbrev slots : List RebuildSlot
slots = new ∷ []

xdp_config_for-ok_example :
    xdp_config_for slots
    ≡ ok (record {
      magic = 236;
      dispatcher_version = 2;
      num_progs_enabled = 1;
      is_xdp_frags = 0;
      chain_call_actions = 12 ∷ 0 ∷ 0 ∷ 0 ∷ 0 ∷ 0 ∷ 0 ∷ 0 ∷ 0 ∷ 0 ∷ [];
      run_prios = 50 ∷ 50 ∷ 50 ∷ 50 ∷ 50 ∷ 50 ∷ 50 ∷ 50 ∷ 50 ∷ 50 ∷ [];
      program_flags = 0 ∷ 0 ∷ 0 ∷ 0 ∷ 0 ∷ 0 ∷ 0 ∷ 0 ∷ 0 ∷ 0 ∷ [];
    })
xdp_config_for-ok_example = xdp_config_for-ok slots (omega arith) (omega arith)

tc_config_for-ok_example :
    tc_config_for slots
    ≡ ok (record {
      num_progs_enabled = 1;
      chain_call_actions = 12 ∷ 0 ∷ 0 ∷ 0 ∷ 0 ∷ 0 ∷ 0 ∷ 0 ∷ 0 ∷ 0 ∷ [];
      run_prios = 50 ∷ 50 ∷ 50 ∷ 50 ∷ 50 ∷ 50 ∷ 50 ∷ 50 ∷ 50 ∷ 50 ∷ [];
    })
tc_config_for-ok_example = tc_config_for-ok slots (omega arith) (omega arith)

-- The codes of TC_ACT_PIPE and TC_ACT_OK.
abbrev tc_codes : List ℤ
tc_codes = pos 3 ∷ pos 0 ∷ []

tc_mask : proceed_on_mask tc_ingress tc_codes ≡ ok 18
unfolding proceed_on_mask tc_action_from_int32
tc_mask = refl

proceed_on_actions-proceed_on_mask_example :
    (acts : List ℤ) × (proceed_on_actions tc_ingress 18 ≡ ok acts)
    × ((c : ℤ) → In c acts ↔ In c tc_codes)
proceed_on_actions-proceed_on_mask_example =
    proceed_on_actions-proceed_on_mask tc_ingress tc_codes 18 tc_mask
