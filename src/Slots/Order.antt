-- ===== src/Slots/Order.antt =====
-- `sortRebuildSlots` returns the slots it was given, in the order of its test.
use mathlib.Core.List.{reverse, reverse-cons, reverse_perm, Perm, perm_middle, append-nil}
use mathlib.Core.List.Perm
use go_bpfman.Prelude.{
  ◌≡◌, true, false, List, [], ◌∷◌, ◌++◌, All, All-append, Bool-cases, inl, inr, arith, eq_ℤ_iff,
  ltb_ℤ_trans, ltb_ℤ_antisym, ltb_ℤ_irrefl, ltb_ℤ_asym, text_ltb_irrefl, text_ltb_trans,
  text_ltb_antisym,
}
use go_bpfman.Slots.{RebuildSlot, before, sift, sort_from, sort_rebuild_slots}

-- `x` may stand before `y`.
infix 50 ◌≼◌
abbrev pub ◌≼◌ : RebuildSlot → RebuildSlot → Type 0
x ≼ y = before y x ≡ false

≼_of_before : (x y : RebuildSlot) → before x y ≡ true → x ≼ y
unfolding before
≼_of_before x y h = ground (
  arith,
  ltb_ℤ_asym x.priority y.priority,
  eq_ℤ_iff x.priority y.priority,
  eq_ℤ_iff y.priority x.priority,
  ltb_ℤ_irrefl x.priority,
  text_ltb_trans x.program_name y.program_name x.program_name,
  text_ltb_irrefl x.program_name,
)

≼_trans : (x y z : RebuildSlot) → x ≼ y → y ≼ z → x ≼ z
unfolding before
≼_trans x y z h k = ground (
  arith,
  eq_ℤ_iff y.priority x.priority,
  eq_ℤ_iff z.priority y.priority,
  eq_ℤ_iff z.priority x.priority,
  ltb_ℤ_antisym x.priority y.priority,
  ltb_ℤ_antisym y.priority z.priority,
  ltb_ℤ_irrefl x.priority,
  ltb_ℤ_irrefl y.priority,
  ltb_ℤ_trans z.priority x.priority y.priority,
  ltb_ℤ_trans y.priority z.priority x.priority,
  text_ltb_antisym x.program_name y.program_name,
  text_ltb_trans z.program_name x.program_name y.program_name,
  text_ltb_trans y.program_name z.program_name x.program_name,
  text_ltb_irrefl x.program_name,
)

-- Ascending: every slot may stand before each later one.
abbrev pub IsSorted : List RebuildSlot → Type 0
IsSorted [] = Unit
IsSorted (x ∷ xs) = All (λ y. x ≼ y) xs × IsSorted xs

-- Descending, as the loop holds the part that is done.
abbrev Descends : List RebuildSlot → Type 0
Descends [] = Unit
Descends (x ∷ xs) = All (λ y. y ≼ x) xs × Descends xs

pub All-sift :
    (P : RebuildSlot → Type 0) (x : RebuildSlot) (l : List RebuildSlot)
    → P x
    → All P l
    → All P (sift x l)
unfolding sift
All-sift P x [] p h = (p, tt)
All-sift P x (y ∷ ys) p h = elim (Bool-cases (before x y)) [
  | inl e ↦ rw e (h.0, All-sift P x ys p h.1)
  | inr e ↦ rw e (p, h)
]

All-≼_trans :
    (x y : RebuildSlot) (l : List RebuildSlot) → y ≼ x → All (λ z. z ≼ y) l → All (λ z. z ≼ x) l
All-≼_trans x y [] h a = tt
All-≼_trans x y (z ∷ l) h a = (≼_trans z y x a.0 h, All-≼_trans x y l h a.1)

sift-Descends : (x : RebuildSlot) (l : List RebuildSlot) → Descends l → Descends (sift x l)
unfolding sift
sift-Descends x [] d = (tt, tt)
sift-Descends x (y ∷ ys) d = elim (Bool-cases (before x y)) [
  | inl e ↦ rw e (All-sift (λ z. z ≼ y) x ys (≼_of_before x y e) d.0, sift-Descends x ys d.1)
  | inr e ↦ rw e ((e, All-≼_trans x y ys e d.0), d)
]

IsSorted-snoc :
    (x : RebuildSlot) (l : List RebuildSlot)
    → All (λ z. z ≼ x) l
    → IsSorted l
    → IsSorted (l ++ x ∷ [])
IsSorted-snoc x [] a s = (tt, tt)
IsSorted-snoc x (y ∷ ys) a s =
    (All-append (λ z. y ≼ z) ys (x ∷ []) s.0 (a.0, tt), IsSorted-snoc x ys a.1 s.1)

pub All-reverse : (P : RebuildSlot → Type 0) (l : List RebuildSlot) → All P l → All P (reverse l)
All-reverse P [] a = tt
All-reverse P (x ∷ l) a =
    rw reverse-cons (All-append P (reverse l) (x ∷ []) (All-reverse P l a.1) (a.0, tt))

IsSorted-reverse : (l : List RebuildSlot) → Descends l → IsSorted (reverse l)
IsSorted-reverse [] d = tt
IsSorted-reverse (x ∷ l) d =
    rw reverse-cons
      (IsSorted-snoc x (reverse l) (All-reverse (λ z. z ≼ x) l d.0) (IsSorted-reverse l d.1))

sort_from-IsSorted : (done l : List RebuildSlot) → Descends done → IsSorted (sort_from done l)
unfolding sort_from
sort_from-IsSorted done [] d = IsSorted-reverse done d
sort_from-IsSorted done (x ∷ l) d = sort_from-IsSorted (sift x done) l (sift-Descends x done d)

sift-perm : (x : RebuildSlot) (l : List RebuildSlot) → Perm (sift x l) (x ∷ l)
unfolding sift
sift-perm x [] = Perm.rfl
sift-perm x (y ∷ ys) = elim (Bool-cases (before x y)) [
  | inl e ↦ rw e (Perm.trans (Perm.cons y (sift-perm x ys)) (Perm.swap x y ys))
  | inr e ↦ rw e Perm.rfl
]

sort_from-perm : (done l : List RebuildSlot) → Perm (sort_from done l) (l ++ done)
unfolding sort_from
sort_from-perm done [] = reverse_perm done
sort_from-perm done (x ∷ l) =
    Perm.trans (sort_from-perm (sift x done) l)
      (Perm.trans (Perm.append_left l (sift-perm x done)) (perm_middle l done))

-- The sorted slots are a rearrangement of the given ones, and each may stand before every later
-- one: by priority, at equal priority the slots with no link first, then by program name.
pub sort_rebuild_slots-IsSorted_perm :
    (slots : List RebuildSlot)
    → Perm (sort_rebuild_slots slots) slots × IsSorted (sort_rebuild_slots slots)
unfolding sort_rebuild_slots
sort_rebuild_slots-IsSorted_perm [] = (Perm.rfl, tt)
sort_rebuild_slots-IsSorted_perm (x ∷ rest) = (
  Perm.trans (sort_from-perm (x ∷ []) rest) (rw append-nil at (perm_middle {a = x} rest [])),
  sort_from-IsSorted (x ∷ []) rest (tt, tt),
)
