-- ===== src/Nearest/Picks.antt =====
-- The last loop, as a choice from a sorted list.
use mathlib.Core.List.{append_assoc, append-nil}
use go_bpfman.Prelude.{
  ℕ, zero, suc, ◌+◌, ◌≤◌, ◌≡◌, ◌⊎◌, inl, inr, refl, sym, ap, ◌∙◌, Text, List, [], ◌∷◌, ◌++◌, map,
  ltb, leb, if◌then◌else◌, length, length-append, All, In, Bool-cases, arith, All-In,
}
use go_bpfman.Nearest.{Scored, collect}
use go_bpfman.Nearest.Order.{◌≼◌, IsSorted, dist-le}

-- The scores up to the cap, the first `n` of them.
pub picks : ℕ → ℕ → List Scored → List Scored
picks zero furthest xs = []
picks (suc n) furthest [] = []
picks (suc n) furthest (x ∷ xs) =
    let rest = x ∷ picks n furthest xs in if ltb furthest x.dist then [] else rest

pub collect-picks :
    (n furthest : ℕ) (out : List Text) (xs : List Scored) {limit : ℕ}
    → length out + n ≡ limit
    → collect limit furthest out xs ≡ out ++ map (λ s. s.text) (picks n furthest xs)
unfolding collect picks
collect-picks zero furthest out [] e = sym (append-nil _)
collect-picks (suc n) furthest out [] e = sym (append-nil _)
collect-picks zero furthest out (x ∷ xs) {limit} e = elim (Bool-cases (leb limit (length out))) [
  | inl t ↦ rw t (sym (append-nil _))
  | inr f ↦ absurd (ground arith)
]
collect-picks (suc n) furthest out (x ∷ xs) {limit} e =
    let later =
      collect-picks n furthest (out ++ x.text ∷ []) xs
        (omega (arith, length-append out (x.text ∷ []))) in
    elim (Bool-cases (leb limit (length out))) [
      | inl t ↦ absurd (ground arith)
      | inr f ↦ rw f (elim (Bool-cases (ltb furthest x.dist)) [
        | inl t ↦ rw t (sym (append-nil _))
        | inr g ↦ rw g (later ∙ append_assoc out (x.text ∷ []) _)
      ])
    ]

pub length-picks : (n furthest : ℕ) (xs : List Scored) → length (picks n furthest xs) ≤ n
unfolding picks
length-picks zero furthest xs = omega arith
length-picks (suc n) furthest [] = omega arith
length-picks (suc n) furthest (x ∷ xs) = ground (arith, length-picks n furthest xs)

pub All-picks :
    (P : Scored → Type 0) (n furthest : ℕ) (xs : List Scored)
    → All P xs
    → All (λ x. P x × (x.dist ≤ furthest)) (picks n furthest xs)
unfolding picks
All-picks P zero furthest xs h = tt
All-picks P (suc n) furthest [] h = tt
All-picks P (suc n) furthest (x ∷ xs) h = elim (Bool-cases (ltb furthest x.dist)) [
  | inl e ↦ rw e tt
  | inr e ↦ rw e ((h.0, ground arith), All-picks P n furthest xs h.1)
]

pub All-picks_weak :
    (P : Scored → Type 0) (n furthest : ℕ) (xs : List Scored)
    → All P xs
    → All P (picks n furthest xs)
unfolding picks
All-picks_weak P zero furthest xs h = tt
All-picks_weak P (suc n) furthest [] h = tt
All-picks_weak P (suc n) furthest (x ∷ xs) h = elim (Bool-cases (ltb furthest x.dist)) [
  | inl e ↦ rw e tt
  | inr e ↦ rw e (h.0, All-picks_weak P n furthest xs h.1)
]

pub picks-IsSorted :
    (n furthest : ℕ) (xs : List Scored) → IsSorted xs → IsSorted (picks n furthest xs)
unfolding picks
picks-IsSorted zero furthest xs s = tt
picks-IsSorted (suc n) furthest [] s = tt
picks-IsSorted (suc n) furthest (x ∷ xs) s = elim (Bool-cases (ltb furthest x.dist)) [
  | inl e ↦ rw e tt
  | inr e ↦ rw e (All-picks_weak (λ y. x ≼ y) n furthest xs s.0, picks-IsSorted n furthest xs s.1)
]

-- A score within the cap is picked, unless `n` scores before it are.
pub picks_complete :
    (n furthest : ℕ) (xs : List Scored) (y : Scored)
    → IsSorted xs
    → In y xs
    → y.dist ≤ furthest
    → In y (picks n furthest xs)
      ⊎ ((length (picks n furthest xs) ≡ n) × All (λ x. x ≼ y) (picks n furthest xs))
unfolding picks
picks_complete zero furthest xs y s i h = inr (refl, tt)
picks_complete (suc n) furthest [] y s i h = absurd i
picks_complete (suc n) furthest (x ∷ xs) y s (inl p) h = elim (Bool-cases (ltb furthest x.dist)) [
  | inl e ↦ absurd (ground (arith, p))
  | inr e ↦ rw e (inl (inl p))
]
picks_complete (suc n) furthest (x ∷ xs) y s (inr i) h = elim (Bool-cases (ltb furthest x.dist)) [
  | inl e ↦ let before = dist-le x y (All-In (λ z. x ≼ z) y xs s.0 i) in absurd (ground arith)
  | inr e ↦ rw e (elim (picks_complete n furthest xs y s.1 i h) [
    | inl j ↦ inl (inr j)
    | inr (l, a) ↦ inr (ap suc l, (All-In (λ z. x ≼ z) y xs s.0 i, a))
  ])
]
