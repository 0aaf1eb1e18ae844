-- ===== src/Distance/Scripts.antt =====
-- Edit scripts, and the recursive distance, which is the least price of a script.
pub mod Metric
use mathlib.Core.List.{reverse, reverse-cons, reverse-reverse}
use native.Mathlib.Decide.{dec_le}
use go_bpfman.Prelude.{ℕ, suc, ◌+◌, ◌≤◌, min, ◌≡◌, refl, List, [], ◌∷◌, ◌++◌, length, arith}
use go_bpfman.Distance.{substitution_cost}

-- A way to turn one list into another, from the left. Replacing an item by itself costs nothing.
pub data Script : List ℕ → List ℕ → Type 0 where
  stop : Script [] []
  delete : {x : ℕ} {s t : List ℕ} → Script s t → Script (x ∷ s) t
  insert : {y : ℕ} {s t : List ℕ} → Script s t → Script s (y ∷ t)
  replace : {x y : ℕ} {s t : List ℕ} → Script s t → Script (x ∷ s) (y ∷ t)

pub price : {s t : List ℕ} → Script s t → ℕ
price stop = 0
price (delete e) = price e + 1
price (insert e) = price e + 1
price (replace {x} {y} e) = price e + substitution_cost x y

-- The textbook recursion.
unfoldable pub edit : List ℕ → List ℕ → ℕ
edit [] t = length t
edit (x ∷ s) [] = suc (length s)
edit (x ∷ s) (y ∷ t) =
    min (edit s (y ∷ t) + 1) (min (edit (x ∷ s) t + 1) (edit s t + substitution_cost x y))

pub edit-nil : (s : List ℕ) → edit s [] ≡ length s
unfolding edit
edit-nil [] = refl
edit-nil (x ∷ s) = refl

pub edit-le-price : {s t : List ℕ} (e : Script s t) → edit s t ≤ price e
unfolding edit price
edit-le-price stop = omega arith
edit-le-price (delete {s} {t = []} e) = omega (arith, edit-le-price e, edit-nil s)
edit-le-price (delete {t = y ∷ t} e) = omega (arith, edit-le-price e)
edit-le-price (insert {s = []} e) = omega (arith, edit-le-price e)
edit-le-price (insert {s = x ∷ s} e) = omega (arith, edit-le-price e)
edit-le-price (replace e) = omega (arith, edit-le-price e)

abbrev Priced : List ℕ → List ℕ → ℕ → Type 0
Priced s t c = (e : Script s t) × (price e ≡ c)

Priced-min : {s t : List ℕ} {c d : ℕ} → Priced s t c → Priced s t d → Priced s t (min c d)
Priced-min {c} {d} p q = elim (dec_le c d) [
  | yes h ↦ (p.0, omega arith)
  | no h ↦ (q.0, omega arith)
]

pub edit_attained : (s t : List ℕ) → (e : Script s t) × (price e ≡ edit s t)
unfolding edit price
edit_attained [] [] = (stop, refl)
edit_attained [] (y ∷ t) = let (e, p) = edit_attained [] t in (insert e, omega arith)
edit_attained (x ∷ s) [] = let (e, p) = edit_attained s [] in (delete e, omega (arith, edit-nil s))
edit_attained (x ∷ s) (y ∷ t) =
    let (d, p) = edit_attained s (y ∷ t) in
    let (i, q) = edit_attained (x ∷ s) t in
    let (r, o) = edit_attained s t in
    Priced-min (delete d, rw p) (Priced-min (insert i, rw q) (replace r, rw o))

-- A step at the right end of a script.
module _ (x : ℕ) where
  delete_last : {s t : List ℕ} (e : Script s t) → Priced (s ++ x ∷ []) t (price e + 1)
  unfolding price
  delete_last stop = (delete stop, refl)
  delete_last (delete e) = let (r, p) = delete_last e in (delete r, omega arith)
  delete_last (insert e) = let (r, p) = delete_last e in (insert r, omega arith)
  delete_last (replace e) = let (r, p) = delete_last e in (replace r, omega arith)

  insert_last : {s t : List ℕ} (e : Script s t) → Priced s (t ++ x ∷ []) (price e + 1)
  unfolding price
  insert_last stop = (insert stop, refl)
  insert_last (delete e) = let (r, p) = insert_last e in (delete r, omega arith)
  insert_last (insert e) = let (r, p) = insert_last e in (insert r, omega arith)
  insert_last (replace e) = let (r, p) = insert_last e in (replace r, omega arith)

module _ (x y : ℕ) where
  replace_last :
      {s t : List ℕ} (e : Script s t)
      → Priced (s ++ x ∷ []) (t ++ y ∷ []) (price e + substitution_cost x y)
  unfolding price
  replace_last stop = (replace stop, refl)
  replace_last (delete e) = let (r, p) = replace_last e in (delete r, omega arith)
  replace_last (insert e) = let (r, p) = replace_last e in (insert r, omega arith)
  replace_last (replace e) = let (r, p) = replace_last e in (replace r, omega arith)

-- A script read from the right, at the same price.
reversed : {s t : List ℕ} (e : Script s t) → Priced (reverse s) (reverse t) (price e)
unfolding price
reversed stop = (stop, refl)
reversed (delete {x} e) =
    let (r, p) = reversed e in let (q, o) = delete_last x r in rw reverse-cons (q, omega arith)
reversed (insert {y} e) =
    let (r, p) = reversed e in let (q, o) = insert_last y r in rw reverse-cons (q, omega arith)
reversed (replace {x} {y} e) =
    let (r, p) = reversed e in
    let (q, o) = replace_last x y r in rw (reverse-cons, reverse-cons) (q, omega arith)

edit-reverse-le : (s t : List ℕ) → edit (reverse s) (reverse t) ≤ edit s t
edit-reverse-le s t =
    let (e, p) = edit_attained s t in let (r, q) = reversed e in omega (arith, edit-le-price r)

-- The distance is the same from the right.
pub edit-reverse : (s t : List ℕ) → edit (reverse s) (reverse t) ≡ edit s t
edit-reverse s t =
    let back =
      rw (reverse-reverse s, reverse-reverse t) at (edit-reverse-le (reverse s) (reverse t)) in
    omega (arith, edit-reverse-le s t)
