-- ===== src/Dispatcher/Mask.antt =====
-- The proceed-on bitmask of a dispatcher slot (dispatcher/dispatcher.go).
pub mod Bits
pub mod Codec
use go_bpfman.Prelude.{
  ℕ, zero, suc, ◌+◌, ◌-◌, ◌*◌, ◌/◌, ◌%◌, ℤ, pos, negsuc, Bool, List, [], ◌∷◌, ltb, leb, ◌==◌,
  if◌then◌else◌,
}
use go_bpfman.Errors.{plain}
use go_bpfman.Exec.{Outcome, ok, err, panic}
use go_bpfman.Actions.{xdp_action_from_int32, tc_action_from_int32}
use go_bpfman.Platform.{DispatcherType, unset, xdp, tc_ingress, tc_egress}

-- proceedOnOffset
unfoldable pub proceed_on_offset : DispatcherType → Outcome ℕ
proceed_on_offset unset = err (plain "unknown dispatcher type")
proceed_on_offset xdp = ok 0
proceed_on_offset tc_ingress = ok 1
proceed_on_offset tc_egress = ok 1

abbrev no_value : {A : Type 0} → Outcome A → Outcome (Unit {0})
no_value (ok _) = ok tt
no_value (err e) = err e
no_value (panic m) = panic m

-- validateProceedOnCode
unfoldable pub validate_proceed_on_code : DispatcherType → ℤ → Outcome (Unit {0})
validate_proceed_on_code unset code = err (plain "unknown dispatcher type")
validate_proceed_on_code xdp code = no_value (xdp_action_from_int32 code)
validate_proceed_on_code tc_ingress code = no_value (tc_action_from_int32 code)
validate_proceed_on_code tc_egress code = no_value (tc_action_from_int32 code)

-- mask & (1 << bit) != 0
pub has_bit : ℕ → ℕ → Bool
has_bit mask zero = mask % 2 == 1
has_bit mask (suc bit) = has_bit (mask / 2) bit

-- mask | 1 << bit
pub set_bit : ℕ → ℕ → ℕ
set_bit mask zero = mask / 2 * 2 + 1
set_bit mask (suc bit) = set_bit (mask / 2) bit * 2 + mask % 2

-- code + offset, for an offset of 0 or 1
abbrev pub add_offset : ℤ → ℕ → ℤ
add_offset (pos n) k = pos (n + k)
add_offset (negsuc n) k = if ltb n k then pos (k - n - 1) else negsuc (n - k)

-- int32(bit) - offset
abbrev pub sub_offset : ℕ → ℕ → ℤ
sub_offset b k = if leb k b then pos (b - k) else negsuc (k - b - 1)

set_bit_at : ℕ → ℤ → Outcome ℕ
unfolding set_bit
set_bit_at mask (negsuc n) = err (plain "proceed-on action code maps to invalid bit")
set_bit_at mask (pos bit) =
    if leb 32 bit
    then err (plain "proceed-on action code maps to invalid bit")
    else ok (set_bit mask bit)

-- The body of the loop of `ProceedOnMask`.
add_code : DispatcherType → ℕ → ℕ → ℤ → Outcome ℕ
unfolding validate_proceed_on_code set_bit_at
add_code dt offset mask code = elim (validate_proceed_on_code dt code) [
  | ok _ ↦ set_bit_at mask (add_offset code offset)
  | err e ↦ err e
  | panic m ↦ panic m
]

pub mask_from : DispatcherType → ℕ → ℕ → List ℤ → Outcome ℕ
unfolding add_code
mask_from dt offset mask [] = ok mask
mask_from dt offset mask (code ∷ codes) = elim (add_code dt offset mask code) [
  | ok mask' ↦ mask_from dt offset mask' codes
  | err e ↦ err e
  | panic m ↦ panic m
]

-- ProceedOnMask
unfoldable pub proceed_on_mask : DispatcherType → List ℤ → Outcome ℕ
unfolding mask_from proceed_on_offset
proceed_on_mask dt codes = elim (proceed_on_offset dt) [
  | ok offset ↦ mask_from dt offset 0 codes
  | err e ↦ err e
  | panic m ↦ panic m
]

abbrev consed : ℤ → Outcome (Unit {0}) → Outcome (List ℤ) → Outcome (List ℤ)
consed code (ok _) (ok rest) = ok (code ∷ rest)
consed code (ok _) (err e) = err e
consed code (ok _) (panic m) = panic m
consed code (err e) rest = err e
consed code (panic m) rest = panic m

-- The loop of `ProceedOnActions` over the bits from `bit` on, `n` of them.
pub actions_from : DispatcherType → ℕ → ℕ → ℕ → ℕ → Outcome (List ℤ)
unfolding has_bit validate_proceed_on_code
actions_from dt offset mask zero bit = ok []
actions_from dt offset mask (suc n) bit =
    let rest = actions_from dt offset mask n (suc bit) in
    let code = sub_offset bit offset in
    if has_bit mask bit then consed code (validate_proceed_on_code dt code) rest else rest

-- ProceedOnActions
unfoldable pub proceed_on_actions : DispatcherType → ℕ → Outcome (List ℤ)
unfolding actions_from proceed_on_offset
proceed_on_actions dt mask = elim (proceed_on_offset dt) [
  | ok offset ↦ actions_from dt offset mask 32 0
  | err e ↦ err e
  | panic m ↦ panic m
]
