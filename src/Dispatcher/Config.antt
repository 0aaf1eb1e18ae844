-- ===== src/Dispatcher/Config.antt =====
-- The configuration that is copied into a dispatcher program (dispatcher/dispatcher.go).
pub mod Chain
use go_bpfman.Prelude.{
  ℕ, zero, suc, ◌+◌, ◌-◌, ◌%◌, ◌≤◌, ◌≡◌, refl, ℤ, pos, negsuc, Bool, ◌||◌, List, [], ◌∷◌, ◌++◌, map,
  arith, ltb_ℤ, length, replicate, if◌then◌else◌,
}
use go_bpfman.Errors.{plain}
use go_bpfman.Exec.{Outcome, ok, err, panic}
use go_bpfman.Slots.{RebuildSlot}

-- MaxPrograms
abbrev pub max_programs : ℕ
max_programs = 10

abbrev pub run_priority : ℕ
run_priority = 50

-- XDPConfig; the arrays have `max_programs` elements.
pub record XdpConfig : Type 0 where
  pub magic : ℕ  -- uint8
  pub dispatcher_version : ℕ  -- uint8
  pub num_progs_enabled : ℕ  -- uint8
  pub is_xdp_frags : ℕ  -- uint8
  pub chain_call_actions : List ℕ  -- [MaxPrograms]uint32
  pub run_prios : List ℕ
  pub program_flags : List ℕ

-- TCConfig
pub record TcConfig : Type 0 where
  pub num_progs_enabled : ℕ  -- uint8
  pub chain_call_actions : List ℕ
  pub run_prios : List ℕ

-- The conversion of an int to uint8.
abbrev u8 : ℤ → ℕ
u8 (pos n) = n % 256
u8 (negsuc n) = 255 - n % 256

abbrev out_of_range : ℤ → Bool
out_of_range n = ltb_ℤ n (pos 1) || ltb_ℤ (pos max_programs) n

-- NewXDPConfig
unfoldable pub new_xdp_config : ℤ → Outcome XdpConfig
new_xdp_config n =
    if out_of_range n
    then err (plain "numProgs out of range")
    else ok (record {
      magic = 236;
      dispatcher_version = 2;
      num_progs_enabled = u8 n;
      is_xdp_frags = 0;
      chain_call_actions = replicate max_programs 0;
      run_prios = replicate max_programs run_priority;
      program_flags = replicate max_programs 0;
    })

-- NewTCConfig
unfoldable pub new_tc_config : ℤ → Outcome TcConfig
new_tc_config n =
    if out_of_range n
    then err (plain "numProgs out of range")
    else ok (record {
      num_progs_enabled = u8 n;
      chain_call_actions = replicate max_programs 0;
      run_prios = replicate max_programs run_priority;
    })

-- `for i, slot := range slots { cfg.ChainCallActions[i] = slot.ProceedOn }`: the array from index
-- `i` on, beside the slots from `i` on. A slot past the end of the array is an index panic.
pub chain_actions : List ℕ → List RebuildSlot → Outcome (List ℕ)
chain_actions actions [] = ok actions
chain_actions [] (s ∷ slots) = panic "index out of range"
chain_actions (a ∷ actions) (s ∷ slots) =
    let rest = chain_actions actions slots in
    elim rest [ ok as' ↦ ok (s.proceed_on ∷ as') | err e ↦ err e | panic m ↦ panic m ]

abbrev with_xdp_actions : XdpConfig → Outcome (List ℕ) → Outcome XdpConfig
with_xdp_actions cfg (ok actions) = ok (record cfg { chain_call_actions = actions })
with_xdp_actions cfg (err e) = err e
with_xdp_actions cfg (panic m) = panic m

abbrev xdp_filled : Outcome XdpConfig → List RebuildSlot → Outcome XdpConfig
xdp_filled (ok cfg) slots = with_xdp_actions cfg (chain_actions cfg.chain_call_actions slots)
xdp_filled (err e) slots = err e
xdp_filled (panic m) slots = panic m

-- The configuration of a rebuild: `NewXDPConfig(len(slots))` and the loop over the slots.
unfoldable pub xdp_config_for : List RebuildSlot → Outcome XdpConfig
unfolding new_xdp_config chain_actions
xdp_config_for slots = xdp_filled (new_xdp_config (pos (length slots))) slots

abbrev with_tc_actions : TcConfig → Outcome (List ℕ) → Outcome TcConfig
with_tc_actions cfg (ok actions) = ok (record cfg { chain_call_actions = actions })
with_tc_actions cfg (err e) = err e
with_tc_actions cfg (panic m) = panic m

abbrev tc_filled : Outcome TcConfig → List RebuildSlot → Outcome TcConfig
tc_filled (ok cfg) slots = with_tc_actions cfg (chain_actions cfg.chain_call_actions slots)
tc_filled (err e) slots = err e
tc_filled (panic m) slots = panic m

unfoldable pub tc_config_for : List RebuildSlot → Outcome TcConfig
unfolding new_tc_config chain_actions
tc_config_for slots = tc_filled (new_tc_config (pos (length slots))) slots
