-- ===== src/Nearest/Order.antt =====
-- The sort of the scores.
use go_bpfman.Prelude.{
  ◌≡◌, ◌≤◌, ◌↔◌, inl, inr, false, true, List, [], ◌∷◌, All, In, Bool-cases, arith, text_ltb_trans,
  text_ltb_irrefl, text_ltb_antisym,
}
use go_bpfman.Nearest.{Scored, below, place, sort_scores}

-- `x` may stand before `y`: it is closer, or as close and not later in the alphabet.
infix 50 ◌≼◌
abbrev pub ◌≼◌ : Scored → Scored → Type 0
x ≼ y = below y x ≡ false

pub dist-le : (x y : Scored) → x ≼ y → x.dist ≤ y.dist
unfolding below
dist-le x y h = ground arith

≼_of_below : (x y : Scored) → below x y ≡ true → x ≼ y
unfolding below
≼_of_below x y h = ground (arith, text_ltb_trans x.text y.text x.text, text_ltb_irrefl x.text)

pub ≼_refl : (x : Scored) → x ≼ x
unfolding below
≼_refl x = ground (arith, text_ltb_irrefl x.text)

≼_trans : (x y z : Scored) → x ≼ y → y ≼ z → x ≼ z
unfolding below
≼_trans x y z h k = ground (
  arith,
  text_ltb_antisym x.text y.text,
  text_ltb_antisym y.text z.text,
  text_ltb_trans z.text x.text y.text,
  text_ltb_trans y.text z.text x.text,
  text_ltb_irrefl x.text,
)

abbrev pub IsSorted : List Scored → Type 0
IsSorted [] = Unit
IsSorted (x ∷ xs) = All (λ y. x ≼ y) xs × IsSorted xs

All-≼_trans : (x y : Scored) (l : List Scored) → x ≼ y → All (λ z. y ≼ z) l → All (λ z. x ≼ z) l
All-≼_trans x y [] h a = tt
All-≼_trans x y (z ∷ l) h a = (≼_trans x y z h a.0, All-≼_trans x y l h a.1)

All-place : (P : Scored → Type 0) (x : Scored) (l : List Scored) → P x → All P l → All P (place x l)
unfolding place
All-place P x [] p h = (p, tt)
All-place P x (y ∷ ys) p h = elim (Bool-cases (below y x)) [
  | inl e ↦ rw e (h.0, All-place P x ys p h.1)
  | inr e ↦ rw e (p, h)
]

place-IsSorted : (x : Scored) (l : List Scored) → IsSorted l → IsSorted (place x l)
unfolding place
place-IsSorted x [] s = (tt, tt)
place-IsSorted x (y ∷ ys) s = elim (Bool-cases (below y x)) [
  | inl e ↦ rw e (All-place (λ z. y ≼ z) x ys (≼_of_below y x e) s.0, place-IsSorted x ys s.1)
  | inr e ↦ rw e ((e, All-≼_trans x y ys e s.0), s)
]

pub sort_scores-IsSorted : (l : List Scored) → IsSorted (sort_scores l)
unfolding sort_scores
sort_scores-IsSorted [] = tt
sort_scores-IsSorted (x ∷ l) = place-IsSorted x (sort_scores l) (sort_scores-IsSorted l)

In-place : (y x : Scored) (l : List Scored) → In y (place x l) ↔ In y (x ∷ l)
unfolding place
In-place y x [] = (λ i. i, λ i. i)
In-place y x (z ∷ l) = elim (Bool-cases (below z x)) [
  | inl e ↦ rw e (
    λ i. elim i [
      | inl p ↦ inr (inl p)
      | inr j ↦ elim ((In-place y x l).0 j) [ inl p ↦ inl p | inr k ↦ inr (inr k) ]
    ],
    λ i. elim i [
      | inl p ↦ inr ((In-place y x l).1 (inl p))
      | inr j ↦ elim j [ inl p ↦ inl p | inr k ↦ inr ((In-place y x l).1 (inr k)) ]
    ],
  )
  | inr e ↦ rw e (λ i. i, λ i. i)
]

-- The sorted scores are the given ones.
pub In-sort_scores : (y : Scored) (l : List Scored) → In y (sort_scores l) ↔ In y l
unfolding sort_scores
In-sort_scores y [] = (λ i. i, λ i. i)
In-sort_scores y (x ∷ l) = (
  λ i. elim ((In-place y x (sort_scores l)).0 i) [
    | inl p ↦ inl p
    | inr j ↦ inr ((In-sort_scores y l).0 j)
  ],
  λ i.
      (In-place y x (sort_scores l)).1
        (elim i [ inl p ↦ inl p | inr j ↦ inr ((In-sort_scores y l).1 j) ]),
)
