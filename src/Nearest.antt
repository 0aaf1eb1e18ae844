-- ===== src/Nearest.antt =====
-- Suggestions for a misspelt name: the candidates at the least edit distance
-- (internal/strdist/strdist.go, `Nearest`). The second half of `Nearest`, which ranks the scores and
-- collects the answer, stands once more in `nearestTracepoints`, and is `choose` in both.
pub mod Order
pub mod Contract
mod Picks
pub mod Correct
pub mod Tracepoints
use go_bpfman.Prelude.{
  ℕ, zero, suc, ◌*◌, ◌/◌, ℤ, pos, negsuc, max, Text, Bool, ◌&&◌, ◌||◌, List, [], ◌∷◌, ◌++◌, Option,
  none, some, ltb, leb, ◌==◌, text_ltb, if◌then◌else◌, length, get_elem?,
}
use go_bpfman.Prelude.Options.{◌>>=◌}
use go_bpfman.Distance.{levenshtein}
use go_bpfman.Distance.Runes.{runes}

-- scored
pub record Scored : Type 0 where
  pub text : Text
  pub dist : ℕ

-- The comparison of the sort, which answers "below".
unfoldable pub below : Scored → Scored → Bool
below a b = ltb a.dist b.dist || (a.dist == b.dist && text_ltb a.text b.text)

place : Scored → List Scored → List Scored
unfolding below
place x [] = x ∷ []
place x (y ∷ ys) = let further = y ∷ place x ys in if below y x then further else x ∷ y ∷ ys

-- slices.SortFunc by that comparison. It is a total order on scores, so every sorting of them is
-- the same list.
pub sort_scores : List Scored → List Scored
unfolding place
sort_scores [] = []
sort_scores (x ∷ xs) = place x (sort_scores xs)

-- The first loop: each candidate with its distance, where `none` is a panic of the distance.
pub score_all : (Text → Option ℕ) → List Text → Option (List Scored)
score_all distance [] = some []
score_all distance (c ∷ cs) = do
  d ← distance c
  scores ← score_all distance cs
  some (record { text = c; dist = d } ∷ scores)

-- The last loop, with `out` so far.
pub collect : ℕ → ℕ → List Text → List Scored → List Text
collect limit max_dist out [] = out
collect limit max_dist out (s ∷ scores) =
    let rest = collect limit max_dist (out ++ s.text ∷ []) scores in
    if leb limit (length out) then out else if ltb max_dist s.dist then out else rest

-- From the sort to the end, where `max_dist` is the absolute cap.
unfoldable pub choose : ℕ → ℕ → List Scored → Option (List Text)
unfolding sort_scores collect
choose limit max_dist scores = do
  let sorted = sort_scores scores
  best ← get_elem? sorted 0
  let tight = 2 * best.dist
  some (collect limit (if ltb tight max_dist then tight else max_dist) [] sorted)

-- The absolute cap, for a target of that many runes.
pub absolute_cap : ℕ → ℕ
absolute_cap n = if leb n 3 then 1 else max (n / 2) 3

-- Nearest
unfoldable pub nearest : Text → List Text → ℤ → Option (List Text)
unfolding score_all choose absolute_cap levenshtein
nearest target candidates (negsuc _) = some []
nearest target candidates (pos zero) = some []
nearest target [] (pos (suc n)) = some []
nearest target (c ∷ cs) (pos (suc n)) = do
  scores ← score_all (levenshtein target) (c ∷ cs)
  choose (suc n) (absolute_cap (length (runes target))) scores
