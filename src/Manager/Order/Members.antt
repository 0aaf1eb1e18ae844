-- ===== src/Manager/Order/Members.antt =====
-- Membership in lists of ids, the number of ids that are not yet seen, and the order of a list.
use go_bpfman.Prelude.{
  ℕ, suc, ◌≤◌, ◌<◌, ◌≡◌, refl, sym, ◌⊎◌, inl, inr, ◌↔◌, true, false, List, [], ◌∷◌, ◌++◌,
  if◌then◌else◌, length, In, In-append_left, In-append_right, Bool-cases, arith,
}
use go_bpfman.Manager.Order.{contains}

pub contains-iff-In : (xs : List ℕ) (a : ℕ) → (contains xs a ≡ true) ↔ In a xs
unfolding contains
contains-iff-In [] a = (λ h. cc, λ i. absurd i)
contains-iff-In (x ∷ xs) a = ground (arith, contains-iff-In xs a)

-- How many of the ids are not in the list.
pub unseen : List ℕ → List ℕ → ℕ
unseen seen [] = 0
unseen seen (a ∷ ids) = if contains seen a then unseen seen ids else suc (unseen seen ids)

pub unseen-le :
    (seen more ids : List ℕ) → ((a : ℕ) → In a seen → In a more) → unseen more ids ≤ unseen seen ids
unfolding unseen
unseen-le seen more [] f = omega arith
unseen-le seen more (a ∷ ids) f = elim (Bool-cases (contains seen a)) [
  | inl e ↦
      rw (e, (contains-iff-In more a).1 (f a ((contains-iff-In seen a).0 e)))
        (unseen-le seen more ids f)
  | inr e ↦ rw e (ground (arith, unseen-le seen more ids f))
]

pub unseen-lt :
    (seen ids : List ℕ) (id : ℕ)
    → In id ids
    → contains seen id ≡ false
    → unseen (id ∷ seen) ids < unseen seen ids
unfolding unseen
unseen-lt seen [] id i e = absurd i
unseen-lt seen (a ∷ ids) id (inl p) e =
    let fewer = unseen-le seen (id ∷ seen) ids (λ b i. inr i) in
    rw (← p, e, (contains-iff-In (id ∷ seen) id).1 (inl refl)) (omega arith)
unseen-lt seen (a ∷ ids) id (inr i) e =
    let fewer = unseen-lt seen ids id i e in
    elim (Bool-cases (contains seen a)) [
      | inl h ↦ rw (h, (contains-iff-In (id ∷ seen) a).1 (inr ((contains-iff-In seen a).0 h))) fewer
      | inr h ↦ rw h (ground arith)
    ]

pub unseen-le-length : (seen ids : List ℕ) → unseen seen ids ≤ length ids
unfolding unseen
unseen-le-length seen [] = omega arith
unseen-le-length seen (a ∷ ids) = ground (arith, unseen-le-length seen ids)

-- `a` stands somewhere before `b`.
abbrev pub Precedes : ℕ → ℕ → List ℕ → Type 0
Precedes a b [] = ⊥
Precedes a b (x ∷ xs) = ((a ≡ x) × In b xs) ⊎ Precedes a b xs

pub Precedes-append : (a b : ℕ) (xs ys : List ℕ) → Precedes a b xs → Precedes a b (xs ++ ys)
Precedes-append a b [] ys p = absurd p
Precedes-append a b (x ∷ xs) ys (inl (e, i)) = inl (e, In-append_left b xs ys i)
Precedes-append a b (x ∷ xs) ys (inr p) = inr (Precedes-append a b xs ys p)

pub Precedes-last : (a b : ℕ) (xs : List ℕ) → In a xs → Precedes a b (xs ++ b ∷ [])
Precedes-last a b [] i = absurd i
Precedes-last a b (x ∷ xs) (inl e) = inl (e, In-append_right b xs (b ∷ []) (inl refl))
Precedes-last a b (x ∷ xs) (inr i) = inr (Precedes-last a b xs i)

-- No id stands twice.
abbrev pub Distinct : List ℕ → Type 0
Distinct [] = Unit
Distinct (x ∷ xs) = ¬ (In x xs) × Distinct xs

pub In-append_inv : (a : ℕ) (xs ys : List ℕ) → In a (xs ++ ys) → In a xs ⊎ In a ys
In-append_inv a [] ys i = inr i
In-append_inv a (x ∷ xs) ys (inl e) = inl (inl e)
In-append_inv a (x ∷ xs) ys (inr i) = elim (In-append_inv a xs ys i) [
  | inl j ↦ inl (inr j)
  | inr j ↦ inr j
]

pub Distinct-snoc : (x : ℕ) (xs : List ℕ) → Distinct xs → ¬ (In x xs) → Distinct (xs ++ x ∷ [])
Distinct-snoc x [] d n = (λ i. absurd i, tt)
Distinct-snoc x (y ∷ ys) d n = (
  λ i. elim (In-append_inv y ys (x ∷ []) i) [
    | inl j ↦ d.0 j
    | inr j ↦ elim j [ inl e ↦ n (inl (sym e)) | inr k ↦ absurd k ]
  ],
  Distinct-snoc x ys d.1 (λ i. n (inr i)),
)
