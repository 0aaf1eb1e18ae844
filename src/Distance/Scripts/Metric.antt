-- ===== src/Distance/Scripts/Metric.antt =====
-- The recursive distance is a metric: scripts turn around, and follow one another.
use go_bpfman.Prelude.{ℕ, ◌+◌, ◌≤◌, ◌≡◌, refl, List, [], ◌∷◌, arith}
use go_bpfman.Distance.{substitution_cost}
use go_bpfman.Distance.Scripts.{
  Script, stop, delete, insert, replace, price, edit, edit-le-price, edit_attained,
}

cost_comm : (x y : ℕ) → substitution_cost x y ≡ substitution_cost y x
unfolding substitution_cost
cost_comm x y = ground arith

cost_zero : (x y : ℕ) → substitution_cost x y ≡ 0 → x ≡ y
unfolding substitution_cost
cost_zero x y h = ground arith

cost_self : (x : ℕ) → substitution_cost x x ≡ 0
unfolding substitution_cost
cost_self x = ground arith

cost_triangle : (x y z : ℕ) → substitution_cost x z ≤ substitution_cost x y + substitution_cost y z
unfolding substitution_cost
cost_triangle x y z = ground arith

pub edit_comm : (s t : List ℕ) → edit s t ≡ edit t s
unfolding edit
edit_comm [] [] = refl
edit_comm [] (y ∷ t) = refl
edit_comm (x ∷ s) [] = refl
edit_comm (x ∷ s) (y ∷ t) =
    omega (arith, cost_comm x y, edit_comm s (y ∷ t), edit_comm (x ∷ s) t, edit_comm s t)

pub edit_self : (s : List ℕ) → edit s s ≡ 0
unfolding edit
edit_self [] = refl
edit_self (x ∷ s) = omega (arith, cost_self x, edit_self s)

pub edit_zero : (s t : List ℕ) → edit s t ≡ 0 → s ≡ t
unfolding edit
edit_zero [] [] h = refl
edit_zero [] (y ∷ t) h = absurd (omega arith)
edit_zero (x ∷ s) [] h = absurd (omega arith)
edit_zero (x ∷ s) (y ∷ t) h = cc (edit_zero s t (omega arith), cost_zero x y (omega arith))

-- One script after another.
then_script : {s t u : List ℕ} → Script s t → Script t u → Script s u
then_script stop f = f
then_script (delete e) f = delete (then_script e f)
then_script (insert e) (delete f) = then_script e f
then_script (insert e) (insert f) = insert (then_script (insert e) f)
then_script (insert e) (replace f) = insert (then_script e f)
then_script (replace e) (delete f) = delete (then_script e f)
then_script (replace e) (insert f) = insert (then_script (replace e) f)
then_script (replace e) (replace f) = replace (then_script e f)

price-then_script :
    {s t u : List ℕ} (e : Script s t) (f : Script t u) → price (then_script e f) ≤ price e + price f
unfolding then_script price
price-then_script stop f = omega arith
price-then_script (delete e) f = omega (arith, price-then_script e f)
price-then_script (insert e) (delete f) = omega (arith, price-then_script e f)
price-then_script (insert {y} e) (insert f) = omega (arith, price-then_script (insert {y = y} e) f)
price-then_script (insert e) (replace f) = omega (arith, price-then_script e f)
price-then_script (replace e) (delete f) = omega (arith, price-then_script e f)
price-then_script (replace {x} {y} e) (insert f) =
    omega (arith, price-then_script (replace {x = x} {y = y} e) f)
price-then_script (replace {x} {y} e) (replace {y = z} f) =
    omega (arith, cost_triangle x y z, price-then_script e f)

pub edit_triangle : (s t u : List ℕ) → edit s u ≤ edit s t + edit t u
edit_triangle s t u =
    let (e, p) = edit_attained s t in
    let (f, q) = edit_attained t u in
    omega (arith, edit-le-price (then_script e f), price-then_script e f)
