-- ===== src/Dispatcher/Config/Chain.antt =====
-- What a rebuild writes into the configuration of its dispatcher.
use native.Mathlib.Nat.{sub-zero}
use go_bpfman.Prelude.{
  ℕ, zero, suc, ◌-◌, ◌≤◌, ◌≡◌, List, [], ◌∷◌, ◌++◌, map, arith, length, replicate,
}
use go_bpfman.Exec.{ok}
use go_bpfman.Slots.{RebuildSlot}
use go_bpfman.Dispatcher.Config.{
  max_programs, run_priority, chain_actions, xdp_config_for, tc_config_for,
}

chain_actions-eq :
    (n : ℕ) (slots : List RebuildSlot)
    → length slots ≤ n
    → chain_actions (replicate n 0) slots
      ≡ ok (map (λ s. s.proceed_on) slots ++ replicate (n - length slots) 0)
unfolding chain_actions
chain_actions-eq n [] h = rw sub-zero
chain_actions-eq zero (s ∷ slots) h = absurd (omega arith)
chain_actions-eq (suc n) (s ∷ slots) h = ground (arith, chain_actions-eq n slots (omega arith))

-- The proceed-on masks of the slots in order, and zeros behind them.
abbrev pub padded : List RebuildSlot → List ℕ
padded slots = map (λ s. s.proceed_on) slots ++ replicate (max_programs - length slots) 0

-- For one to ten slots the XDP configuration enables exactly the slots, and its array holds the
-- proceed-on mask of each slot at the slot's position and zeros behind them; no write is out of
-- range.
pub xdp_config_for-ok :
    (slots : List RebuildSlot)
    → 1 ≤ length slots
    → length slots ≤ max_programs
    → xdp_config_for slots
      ≡ ok (record {
        magic = 236;
        dispatcher_version = 2;
        num_progs_enabled = length slots;
        is_xdp_frags = 0;
        chain_call_actions = padded slots;
        run_prios = replicate max_programs run_priority;
        program_flags = replicate max_programs 0;
      })
unfolding xdp_config_for
xdp_config_for-ok slots h k = ground (arith, chain_actions-eq 10 slots k)

-- For one to ten slots the TC configuration enables exactly the slots, and its array holds the
-- proceed-on mask of each slot at the slot's position and zeros behind them; no write is out of
-- range.
pub tc_config_for-ok :
    (slots : List RebuildSlot)
    → 1 ≤ length slots
    → length slots ≤ max_programs
    → tc_config_for slots
      ≡ ok (record {
        num_progs_enabled = length slots;
        chain_call_actions = padded slots;
        run_prios = replicate max_programs run_priority;
      })
unfolding tc_config_for
tc_config_for-ok slots h k = ground (arith, chain_actions-eq 10 slots k)
