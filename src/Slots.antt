-- ===== src/Slots.antt =====
-- The slots of a dispatcher rebuild and their order (manager/executor_dispatcher.go).
pub mod Order
pub mod Position
use mathlib.Core.List.{reverse}
use go_bpfman.Prelude.{
  ℕ, zero, suc, ◌+◌, ℤ, Text, Bool, true, false, ◌&&◌, ◌||◌, not, List, [], ◌∷◌, ◌++◌, Option, none,
  some, eq_ℤ, ltb_ℤ, text_ltb, is_some, map, if◌then◌else◌,
}
use go_bpfman.Platform.{DispatcherMember, Labels}

-- rebuildSlot
pub record RebuildSlot : Type 0 where
  pub prog_pin_path : Text
  pub program_name : Text
  pub priority : ℤ
  pub proceed_on : ℕ  -- uint32
  pub existing_link_id : Option ℕ
  pub program_id : ℕ
  pub ifname : Text
  pub metadata : Labels

abbrev bool_eq : Bool → Bool → Bool
bool_eq true b = b
bool_eq false b = not b

-- The test of `sortRebuildSlots` at `slots[j]` and `slots[j-1]`: by priority, then the slot that is
-- not attached first, then by program name.
pub before : RebuildSlot → RebuildSlot → Bool
before x y =
    ltb_ℤ x.priority y.priority
    || (eq_ℤ x.priority y.priority
        && not (is_some x.existing_link_id)
        && is_some y.existing_link_id)
    || (eq_ℤ x.priority y.priority
        && bool_eq (is_some x.existing_link_id) (is_some y.existing_link_id)
        && text_ltb x.program_name y.program_name)

-- The inner loop: `x` is swapped towards the front until the slot before it may stay. The part of
-- the array in front of `x` is given from its end.
pub sift : RebuildSlot → List RebuildSlot → List RebuildSlot
unfolding before
sift x [] = x ∷ []
sift x (y ∷ ys) = let further = y ∷ sift x ys in if before x y then further else x ∷ y ∷ ys

-- The outer loop, with the slots before index `i` from their end, and the slots from `i` on.
pub sort_from : List RebuildSlot → List RebuildSlot → List RebuildSlot
unfolding sift
sort_from done [] = reverse done
sort_from done (x ∷ rest) = sort_from (sift x done) rest

-- sortRebuildSlots
unfoldable pub sort_rebuild_slots : List RebuildSlot → List RebuildSlot
unfolding sort_from
sort_rebuild_slots [] = []
sort_rebuild_slots (x ∷ rest) = sort_from (x ∷ []) rest

-- A slot for a member of the stored snapshot.
pub member_slot : DispatcherMember → RebuildSlot
member_slot m = record {
  prog_pin_path = m.prog_pin_path;
  program_name = m.program_name;
  priority = m.priority;
  proceed_on = m.proceed_on;
  existing_link_id = some m.link_id;
  program_id = m.program_id;
  ifname = m.ifname;
  metadata = m.metadata;
}

-- allSlots: the stored members, then the new slot.
unfoldable pub all_slots : List DispatcherMember → RebuildSlot → List RebuildSlot
unfolding member_slot
all_slots members new = map member_slot members ++ new ∷ []

-- newSlotPosition: the last index whose slot has no link yet, as the attach loop finds it;
-- `none` stands for -1.
pub new_slot_from : ℕ → Option ℕ → List RebuildSlot → Option ℕ
new_slot_from i found [] = found
new_slot_from i found (x ∷ xs) =
    new_slot_from (suc i) (if is_some x.existing_link_id then found else some i) xs

unfoldable pub new_slot_position : List RebuildSlot → Option ℕ
unfolding new_slot_from
new_slot_position slots = new_slot_from 0 none slots
