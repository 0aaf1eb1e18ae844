-- ===== src/Nearest/Correct.antt =====
-- `Nearest` keeps its promise.
use go_bpfman.Prelude.{
  ℕ, zero, suc, ◌*◌, ◌/◌, ℤ, negsuc, leb, max, ◌≤◌, ◌≡◌, inl, inr, refl, sym, ap, ◌∙◌, pos, Text,
  List, [], ◌∷◌, map, ltb, if◌then◌else◌, length, length-map, All, In, arith, All-In, All-intro,
  In-map, All-map, All-map_inverse, All-mono, some, Option,
}
use go_bpfman.Distance.{levenshtein}
use go_bpfman.Distance.Runes.{runes}
use go_bpfman.Distance.Scripts.{edit}
use go_bpfman.Distance.Least.{levenshtein-edit}
use go_bpfman.Nearest.{Scored, sort_scores, score_all, choose, nearest, absolute_cap}
use go_bpfman.Nearest.Order.{◌≼◌, IsSorted, dist-le, ≼_refl, sort_scores-IsSorted, In-sort_scores}
use go_bpfman.Nearest.Picks.{
  picks, collect-picks, length-picks, All-picks, picks-IsSorted, picks_complete,
}
use go_bpfman.Nearest.Contract.{score, Close, IsNearest, most_of, nothing_allowed, nothing_given}

module _ (d : Text → ℕ) where
  -- Each score is that of its text, which is a candidate.
  abbrev Scores : List Text → Scored → Type 0
  Scores cs x = In x.text cs × (x ≡ score d x.text)

  All-Scores :
      (all cs : List Text) → ((c : Text) → In c cs → In c all) → All (Scores all) (map (score d) cs)
  All-Scores all [] f = tt
  All-Scores all (c ∷ cs) f = ((f c (inl refl), refl), All-Scores all cs (λ a i. f a (inr i)))

  score_text :
      (xs : List Scored)
      → All (λ x. x ≡ score d x.text) xs
      → map (score d) (map (λ x. x.text) xs) ≡ xs
  score_text [] h = refl
  score_text (x ∷ xs) h = λ i. sym h.0 i ∷ score_text xs h.1 i

  module _ (most limit : ℕ) (cs : List Text) (best : Scored) (rest : List Scored)
      (scores : All (Scores cs) (best ∷ rest))
      (all : (c : Text) → In c cs → In (score d c) (best ∷ rest))
      (sorted : IsSorted (best ∷ rest)) where
    abbrev cut_off : ℕ
    cut_off = if ltb (2 * best.dist) most then 2 * best.dist else most

    abbrev picked : List Scored
    picked = picks limit cut_off (best ∷ rest)

    best_first : (c : Text) → In c cs → best.dist ≤ d c
    best_first c i =
        dist-le best (score d c)
          (All-In (λ z. best ≼ z) (score d c) (best ∷ rest) (≼_refl best, sorted.0) (all c i))

    picked-Close :
        (x : Scored) → Scores cs x × (x.dist ≤ cut_off) → In x.text cs × Close d most cs x.text
    picked-Close x h =
        let e : x.dist ≡ d x.text = ap (λ (y : Scored). y.dist) h.0.1 in
        (
          h.0.0,
          (
            ground (arith, e),
            All-intro (λ c. d x.text ≤ 2 * d c) cs (λ c i. ground (arith, e, best_first c i)),
          ),
        )

    Close-le : (c : Text) → Close d most cs c → d c ≤ cut_off
    Close-le c h =
        let e : best.dist ≡ d best.text = ap (λ (y : Scored). y.dist) scores.0.1 in
        ground (arith, e, All-In (λ b. d c ≤ 2 * d b) best.text cs h.1 scores.0.0)

    texts_again : map (score d) (map (λ x. x.text) picked) ≡ picked
    texts_again = score_text picked (
        All-mono _ _ picked (λ x h. h.0.1)
          (All-picks (Scores cs) limit cut_off (best ∷ rest) scores))

    picked-IsNearest : IsNearest d most limit cs (map (λ x. x.text) picked)
    picked-IsNearest = record {
      count = omega (
        arith,
        length-map (λ (x : Scored). x.text) picked,
        length-picks limit cut_off (best ∷ rest),
      );
      close =
          All-map _ (λ x. x.text) picked
            (All-mono _ _ picked picked-Close
              (All-picks (Scores cs) limit cut_off (best ∷ rest) scores));
      ordered = rw texts_again (picks-IsSorted limit cut_off (best ∷ rest) sorted);
      complete = λ c i h.
          elim (picks_complete limit cut_off (best ∷ rest) (score d c) sorted (all c i)
            (Close-le c h)) [
              | inl j ↦ inl (In-map (λ x. x.text) (score d c) picked j)
              | inr (l, a) ↦ inr (
                length-map (λ (x : Scored). x.text) picked ∙ l,
                All-map_inverse (λ y. y ≼ score d c) (score d) (map (λ x. x.text) picked)
                    (rw texts_again a),
              )
            ];
    }

  pub choose-IsNearest :
      (most limit : ℕ) (c : Text) (cs : List Text)
      → (out : List Text) × (choose limit most (map (score d) (c ∷ cs)) ≡ some out)
        × IsNearest d most limit (c ∷ cs) out
  unfolding choose
  choose-IsNearest most limit c cs = go (sort_scores (map (score d) (c ∷ cs))) refl
    where
      go :
          (sorted : List Scored)
          → sort_scores (map (score d) (c ∷ cs)) ≡ sorted
          → (out : List Text) × (choose limit most (map (score d) (c ∷ cs)) ≡ some out)
            × IsNearest d most limit (c ∷ cs) out
      go [] e =
          absurd (rw e at ((In-sort_scores (score d c) (map (score d) (c ∷ cs))).1 (inl refl)))
      go (best ∷ rest) e =
          let all = λ (a : Text) (i : In a (c ∷ cs)). rw e at (
            (In-sort_scores (score d a) (map (score d) (c ∷ cs))).1
              (In-map (score d) a (c ∷ cs) i)) in
          let given = All-Scores (c ∷ cs) (c ∷ cs) (λ a i. i) in
          let scores : All (Scores (c ∷ cs)) (sort_scores (map (score d) (c ∷ cs))) =
            All-intro (Scores (c ∷ cs)) (sort_scores (map (score d) (c ∷ cs))) λ x i.
              All-In (Scores (c ∷ cs)) x (map (score d) (c ∷ cs)) given
                ((In-sort_scores x (map (score d) (c ∷ cs))).0 i) in
          let sorted = rw e at (sort_scores-IsSorted (map (score d) (c ∷ cs))) in
          (
            map (λ x. x.text) (picked most limit (c ∷ cs) best rest (rw e at scores) all sorted),
            rw e (ap some (collect-picks limit _ [] (best ∷ rest) (omega arith))),
            picked-IsNearest most limit (c ∷ cs) best rest (rw e at scores) all sorted,
          )

-- `score_all` never fails where the distance does not.
pub score_all-map :
    (distance : Text → Option ℕ) (d : Text → ℕ)
    → ((c : Text) → distance c ≡ some (d c))
    → (cs : List Text) → score_all distance cs ≡ some (map (score d) cs)
unfolding score_all
score_all-map distance d h [] = refl
score_all-map distance d h (c ∷ cs) = rw (h c, score_all-map distance d h cs) refl

-- The distance of the target to a candidate.
abbrev pub distance_to : Text → Text → ℕ
distance_to target c = edit (runes target) (runes c)

-- Nearest never fails, on no candidates and on a limit below one neither, and returns at most as many
-- candidates as the limit allows, none for a limit below one, in the order of their distance and then
-- of the alphabet. Each is within the absolute cap, which is 1 for a target of at most three runes, or
-- else half the runes of the target and no less than 3, and at most twice as far as the closest
-- candidate, and no candidate within both is left out, unless the limit is filled by others that come
-- before it.
pub nearest-IsNearest :
    (target : Text) (candidates : List Text) (limit : ℤ)
    → let n = length (runes target) in
      (out : List Text) × (nearest target candidates limit ≡ some out)
      × IsNearest
          (distance_to target)
          (if leb n 3 then 1 else max (n / 2) 3)
          (most_of limit)
          candidates
          out
unfolding nearest absolute_cap
nearest-IsNearest target cs (negsuc _) = ([], refl, nothing_allowed (distance_to target) _ cs)
nearest-IsNearest target cs (pos zero) = ([], refl, nothing_allowed (distance_to target) _ cs)
nearest-IsNearest target [] (pos (suc n)) = ([], refl, nothing_given (distance_to target) _ (suc n))
nearest-IsNearest target (c ∷ cs) (pos (suc n)) =
    rw (score_all-map (levenshtein target) (distance_to target) (levenshtein-edit target) (c ∷ cs))
      (choose-IsNearest (distance_to target) (absolute_cap (length (runes target))) (suc n) c cs)
