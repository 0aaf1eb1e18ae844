-- ===== src/Distance.antt =====
-- Edit distance of two strings (internal/strdist/strdist.go, `Levenshtein`).
pub mod Runes
pub mod Scripts
mod Rows
pub mod Least
use go_bpfman.Prelude.{
  ℕ, zero, suc, ◌+◌, ◌-◌, min, Text, List, [], ◌∷◌, Option, none, some, ◌==◌, if◌then◌else◌, length,
  get_elem?, replicate,
}
use go_bpfman.Prelude.Options.{◌>>=◌}
use go_bpfman.Distance.Runes.{runes}

-- `slice[i] = v`; `none` is the panic of an index out of range.
pub store : List ℕ → ℕ → ℕ → Option (List ℕ)
store [] i v = none
store (x ∷ xs) zero v = some (v ∷ xs)
store (x ∷ xs) (suc i) v = elim (store xs i v) [ none ↦ none | some ys ↦ some (x ∷ ys) ]

-- `for j := 0; j <= n; j++ { prev[j] = j }`, with the rounds left.
pub number_row : ℕ → ℕ → List ℕ → Option (List ℕ)
number_row zero j prev = some prev
number_row (suc rounds) j prev = store prev j j >>= number_row rounds (suc j)

pub substitution_cost : ℕ → ℕ → ℕ
substitution_cost x y = if x == y then 0 else 1

-- The inner loop from round `j` on, at the rune `x` of `ar` and the runes of `br` from `j - 1` on.
pub fill_row : ℕ → List ℕ → List ℕ → ℕ → List ℕ → Option (List ℕ)
unfolding store substitution_cost
fill_row x prev [] j curr = some curr
fill_row x prev (y ∷ br) j curr = do
  above ← get_elem? prev j
  left ← get_elem? curr (j - 1)
  diagonal ← get_elem? prev (j - 1)
  next ← store curr j (min (above + 1) (min (left + 1) (diagonal + substitution_cost x y)))
  fill_row x prev br (suc j) next

-- The outer loop from round `i` on, at the runes of `ar` from `i - 1` on: the rows are swapped at
-- the end of each round, and the last `prev` is kept.
pub fill_rows : List ℕ → List ℕ → ℕ → List ℕ → List ℕ → Option (List ℕ)
unfolding fill_row
fill_rows [] br i prev curr = some prev
fill_rows (x ∷ ar) br i prev curr = do
  started ← store curr 0 i
  filled ← fill_row x prev br 1 started
  fill_rows ar br (suc i) filled prev

-- The body of Levenshtein, on runes.
pub distance_of_runes : List ℕ → List ℕ → Option ℕ
unfolding fill_rows number_row
distance_of_runes [] br = some (length br)
distance_of_runes (x ∷ ar) [] = some (length (x ∷ ar))
distance_of_runes (x ∷ ar) (y ∷ br) = do
  let n = length (y ∷ br)
  let zeros = replicate {A = ℕ} (n + 1) 0
  prev ← number_row (n + 1) 0 zeros
  last ← fill_rows (x ∷ ar) (y ∷ br) 1 prev zeros
  get_elem? last n

-- Levenshtein
unfoldable pub levenshtein : Text → Text → Option ℕ
unfolding distance_of_runes runes
levenshtein a b = distance_of_runes (runes a) (runes b)
