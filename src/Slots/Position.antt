-- ===== src/Slots/Position.antt =====
-- Where the new slot of an attach lands among the stored members.
use mathlib.Core.List.{reverse, reverse-cons}
use go_bpfman.Prelude.{
  ℕ, suc, ◌+◌, ◌≡◌, refl, ◌∙◌, ap, ℤ, ltb_ℤ, Bool, true, false, not, List, [], ◌∷◌, ◌++◌, All,
  Option, none, some, is_some, Bool-cases, inl, inr, arith, eq_ℤ_iff, ltb_ℤ_antisym, ltb_ℤ_irrefl,
  if◌then◌else◌,
}
use go_bpfman.Platform.{DispatcherMember}
use go_bpfman.Slots.{
  RebuildSlot, before, sift, sort_from, sort_rebuild_slots, all_slots, new_slot_from,
  new_slot_position,
}
use go_bpfman.Slots.Order.{◌≼◌, IsSorted, All-sift, All-reverse, sort_rebuild_slots-IsSorted_perm}

abbrev is_new : RebuildSlot → Bool
is_new s = not (is_some s.existing_link_id)

count_if : {A : Type 0} → (A → Bool) → List A → ℕ
count_if p [] = 0
count_if p (x ∷ xs) = let rest = count_if p xs in if p x then suc rest else rest

-- How many members have a lower priority value than `p`.
pub count_below : ℤ → List DispatcherMember → ℕ
unfolding count_if
count_below p members = count_if (λ m. ltb_ℤ m.priority p) members

count_if-append :
    {A : Type 0} (p : A → Bool) (xs ys : List A)
    → count_if p (xs ++ ys) ≡ count_if p xs + count_if p ys
unfolding count_if
count_if-append p [] ys = omega arith
count_if-append p (x ∷ xs) ys = ground (arith, count_if-append p xs ys)

count_if-reverse :
    (p : RebuildSlot → Bool) (l : List RebuildSlot) → count_if p (reverse l) ≡ count_if p l
unfolding count_if
count_if-reverse p [] = refl
count_if-reverse p (x ∷ l) =
    rw reverse-cons (ground (arith, count_if-append p (reverse l) (x ∷ []), count_if-reverse p l))

count_if-sift :
    (p : RebuildSlot → Bool) (x : RebuildSlot) (l : List RebuildSlot)
    → count_if p (sift x l) ≡ count_if p (x ∷ l)
unfolding count_if sift
count_if-sift p x [] = refl
count_if-sift p x (y ∷ ys) = elim (Bool-cases (before x y)) [
  | inl e ↦ rw e (ground (arith, count_if-sift p x ys))
  | inr e ↦ rw e refl
]

count_if-sort_from :
    (p : RebuildSlot → Bool) (done l : List RebuildSlot)
    → count_if p (sort_from done l) ≡ count_if p done + count_if p l
unfolding count_if sort_from
count_if-sort_from p done [] = ground (arith, count_if-reverse p done)
count_if-sort_from p done (x ∷ l) =
    ground (arith, count_if-sort_from p (sift x done) l, count_if-sift p x done)

count_if-sort :
    (p : RebuildSlot → Bool) (l : List RebuildSlot)
    → count_if p (sort_rebuild_slots l) ≡ count_if p l
unfolding sort_rebuild_slots
count_if-sort p [] = refl
count_if-sort p (x ∷ l) = count_if-sort_from p (x ∷ []) l ∙ (unfold count_if in ground arith)

-- A linked slot that may stand before a new one has a lower priority value.
below_new :
    (y x : RebuildSlot)
    → is_new y ≡ false
    → is_new x ≡ true
    → y ≼ x
    → ltb_ℤ y.priority x.priority ≡ true
unfolding before
below_new y x a n h =
    ground (arith, ltb_ℤ_antisym y.priority x.priority, eq_ℤ_iff x.priority y.priority)

not-below_new : (y x : RebuildSlot) → y ≼ x → ltb_ℤ x.priority y.priority ≡ false
unfolding before
not-below_new y x h = ground arith

module _ (p : ℤ) where
  abbrev AtPriority : RebuildSlot → Type 0
  AtPriority s = is_new s ≡ true → s.priority ≡ p

  abbrev below : RebuildSlot → Bool
  below s = ltb_ℤ s.priority p

  head_below :
      (y : RebuildSlot) (l : List RebuildSlot)
      → is_new y ≡ false
      → All (λ x. y ≼ x) l
      → All AtPriority l
      → count_if is_new l ≡ 1
      → below y ≡ true
  unfolding count_if
  head_below y [] a h q c = absurd (omega arith)
  head_below y (x ∷ l) a h q c = elim (Bool-cases (is_new x)) [
    | inl e ↦ rw (q.0 e) at (below_new y x a e h.0)
    | inr e ↦ head_below y l a h.1 q.1 (ground (arith, e))
  ]

  All-linked :
      (i : ℕ) (found : Option ℕ) (y : RebuildSlot) (l : List RebuildSlot)
      → y.priority ≡ p
      → All (λ x. y ≼ x) l
      → count_if is_new l ≡ 0
      → (new_slot_from i found l ≡ found) × (count_if below l ≡ 0)
  unfolding count_if new_slot_from
  All-linked i found y [] e h c = (refl, refl)
  All-linked i found y (x ∷ l) e h c = elim (Bool-cases (is_new x)) [
    | inl n ↦ absurd (ground (arith, n))
    | inr n ↦
        let (kept, none_below) = All-linked (suc i) found y l e h.1 (ground (arith, n)) in
        (ground (arith, n, kept), ground (arith, n, none_below, not-below_new y x h.0))
  ]

  position_sorted :
      (i : ℕ) (found : Option ℕ) (l : List RebuildSlot)
      → IsSorted l
      → All AtPriority l
      → count_if is_new l ≡ 1
      → new_slot_from i found l ≡ some (i + count_if below l)
  unfolding count_if new_slot_from
  position_sorted i found [] s q c = absurd (omega arith)
  position_sorted i found (y ∷ l) s q c = elim (Bool-cases (is_new y)) [
    | inl n ↦
        let (kept, none_below) = All-linked (suc i) (some i) y l (q.0 n) s.0 (ground (arith, n)) in
        ground (arith, n, kept, none_below, q.0 n, ltb_ℤ_irrefl p)
    | inr n ↦ ground (
      arith,
      n,
      head_below y l n s.0 q.1 (ground (arith, n)),
      position_sorted (suc i) found l s.1 q.1 (ground (arith, n)),
    )
  ]

All-sort_from :
    (P : RebuildSlot → Type 0) (done l : List RebuildSlot)
    → All P done
    → All P l
    → All P (sort_from done l)
unfolding sort_from
All-sort_from P done [] a b = All-reverse P done a
All-sort_from P done (x ∷ l) a b = All-sort_from P (sift x done) l (All-sift P x done b.0 a) b.1

pub All-sort :
    (P : RebuildSlot → Type 0) (l : List RebuildSlot) → All P l → All P (sort_rebuild_slots l)
unfolding sort_rebuild_slots
All-sort P [] a = tt
All-sort P (x ∷ l) a = All-sort_from P (x ∷ []) l (a.0, tt) a.1

module _ (new : RebuildSlot) (unlinked : new.existing_link_id ≡ none) where
  all_slots-AtPriority :
      (members : List DispatcherMember) → All (AtPriority new.priority) (all_slots members new)
  unfolding all_slots
  all_slots-AtPriority [] = (λ _. refl, tt)
  all_slots-AtPriority (m ∷ members) = (λ e. absurd (ground arith), all_slots-AtPriority members)

  all_slots-one_new :
      (members : List DispatcherMember) → count_if is_new (all_slots members new) ≡ 1
  unfolding all_slots count_if
  all_slots-one_new [] = ground arith
  all_slots-one_new (m ∷ members) = all_slots-one_new members

  all_slots-below :
      (members : List DispatcherMember)
      → count_if (below new.priority) (all_slots members new) ≡ count_below new.priority members
  unfolding all_slots count_below
  all_slots-below [] = ground (arith, ltb_ℤ_irrefl new.priority)
  all_slots-below (m ∷ members) = ground (arith, all_slots-below members)

  -- Where the new slot has no link yet, it stands in the sorted chain behind exactly the members of
  -- lower priority value, so in front of every member of the same priority, whatever the order of
  -- the stored members.
  pub new_slot_position-eq :
      (members : List DispatcherMember)
      → new_slot_position (sort_rebuild_slots (all_slots members new))
        ≡ some (count_below new.priority members)
  unfolding new_slot_position
  new_slot_position-eq members =
      let slots = all_slots members new in
      position_sorted new.priority 0 none (sort_rebuild_slots slots)
        (sort_rebuild_slots-IsSorted_perm slots).1
        (All-sort (AtPriority new.priority) slots (all_slots-AtPriority members))
        (count_if-sort is_new slots ∙ all_slots-one_new members)
      ∙ ap some (omega (arith, count_if-sort (below new.priority) slots, all_slots-below members))
