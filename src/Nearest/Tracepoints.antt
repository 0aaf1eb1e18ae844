-- ===== src/Nearest/Tracepoints.antt =====
-- Suggestions for a tracepoint (manager/suggest.go): the distance treats the group and the name of
-- a path "group/name" apart.
use go_bpfman.Prelude.{
  ℕ, zero, suc, ◌/◌, ◌≡◌, refl, ap, ◌∙◌, ℤ, pos, negsuc, max, Text, Bool, true, false, ◌&&◌, ◌||◌,
  List, [], ◌∷◌, ◌++◌, Option, none, some, leb, ◌==◌, text_eq, if◌then◌else◌, length, Option-cases,
  Bool-cases, inl, inr, arith,
}
use go_bpfman.Prelude.Options.{◌>>=◌}
use go_bpfman.Distance.{levenshtein}
use go_bpfman.Distance.Least.{levenshtein-edit}
use go_bpfman.Distance.Runes.{runes}
use go_bpfman.Nearest.{score_all, choose}
use go_bpfman.Nearest.Contract.{IsNearest, most_of, nothing_allowed, nothing_given}
use go_bpfman.Nearest.Correct.{distance_to, choose-IsNearest, score_all-map}

prepend : ℕ → Option (Text × Text) → Option (Text × Text)
prepend b none = none
prepend b (some (before, after)) = some (b ∷ before, after)

-- strings.Cut(s, "/"), where `none` stands for a string without a slash.
pub cut_slash : Text → Option (Text × Text)
unfolding prepend
cut_slash [] = none
cut_slash (b ∷ s) = let later = prepend b (cut_slash s) in if b == b'/' then some ([], s) else later

-- strings.HasPrefix
pub has_prefix : Text → Text → Bool
has_prefix s [] = true
has_prefix [] (p ∷ prefix) = false
has_prefix (b ∷ s) (p ∷ prefix) = b == p && has_prefix s prefix

tracepoint_name_prefix_min : ℕ
tracepoint_name_prefix_min = 3

-- tracepointDistance, once the candidate is cut.
pair_distance : Text → Text → Text → Text → Text → Option ℕ
unfolding has_prefix tracepoint_name_prefix_min
pair_distance tg tn cg cn candidate =
    let name_prefix = leb tracepoint_name_prefix_min (length tn) && has_prefix cn tn in
    if text_eq cg tg && text_eq cn tn
    then some 0
    else if text_eq cg tg
    then (if name_prefix then some 0 else levenshtein tn cn)
    else if text_eq cn tn
    then levenshtein tg cg
    else if name_prefix
    then levenshtein tg cg
    else levenshtein (tg ++ b'/' ∷ tn) candidate

-- tracepointDistance, with the cut of the candidate.
tracepoint_distance : Text → Text → Text → Option (Text × Text) → Option ℕ
unfolding pair_distance
tracepoint_distance tg tn candidate none = levenshtein (tg ++ b'/' ∷ tn) candidate
tracepoint_distance tg tn candidate (some (cg, cn)) = pair_distance tg tn cg cn candidate

-- The distance of one candidate, the body of the loop, with the cuts of the target and the candidate.
candidate_distance : Text → Text → Option (Text × Text) → Option (Text × Text) → Option ℕ
unfolding tracepoint_distance
candidate_distance target c (some (tg, tn)) split = tracepoint_distance tg tn c split
candidate_distance target c none (some (cg, cn)) = levenshtein target cn
candidate_distance target c none none = levenshtein target c

-- nearestTracepoints
unfoldable pub nearest_tracepoints : Text → List Text → ℤ → Option (List Text)
unfolding score_all candidate_distance cut_slash choose runes
nearest_tracepoints target candidates (negsuc _) = some []
nearest_tracepoints target candidates (pos zero) = some []
nearest_tracepoints target [] (pos (suc n)) = some []
nearest_tracepoints target (c ∷ cs) (pos (suc n)) = do
  let cut = cut_slash target
  scores ← score_all (λ a. candidate_distance target a cut (cut_slash a)) (c ∷ cs)
  choose (suc n) (max (length (runes target) / 2) 5) scores

-- What the name alone costs in the right group, and whether the name is as good as given: it is the
-- one, or begins with the fragment of at least three bytes.
abbrev pub extends : Text → Text → Bool
extends tn cn = text_eq cn tn || (leb 3 (length tn) && has_prefix cn tn)

-- The table of the distances: a target without a group is compared with the name, a name that is
-- right or begins right costs what its group costs, another name in the right group costs its own
-- distance, and all else the distance of the whole paths.
abbrev pub table : Text → Text → Text → Text → Text → Text → ℕ
table target c tg tn cg cn =
    if extends tn cn
    then (if text_eq cg tg then 0 else distance_to tg cg)
    else if text_eq cg tg
    then distance_to tn cn
    else distance_to target c

abbrev pub spec_of_cuts : Text → Text → Option (Text × Text) → Option (Text × Text) → ℕ
spec_of_cuts target c none none = distance_to target c
spec_of_cuts target c none (some (cg, cn)) = distance_to target cn
spec_of_cuts target c (some (tg, tn)) none = distance_to target c
spec_of_cuts target c (some (tg, tn)) (some (cg, cn)) = table target c tg tn cg cn

abbrev pub spec_distance : Text → Text → ℕ
spec_distance target c = spec_of_cuts target c (cut_slash target) (cut_slash c)

cut_slash-append :
    (s before after : Text) → cut_slash s ≡ some (before, after) → before ++ b'/' ∷ after ≡ s
unfolding cut_slash
cut_slash-append [] before after h = absurd (ground arith)
cut_slash-append (b ∷ s) before after h = elim (Bool-cases (b == b'/')) [
  | inl e ↦ ground (arith, rw e at h)
  | inr e ↦ elim (Option-cases (cut_slash s)) [
    | inl n ↦ absurd (cc (rw (e, n) at h))
    | inr ((x, y), p) ↦ ground (arith, cut_slash-append s x y p)
  ]
]

pair_distance-table :
    (c tg tn cg cn : Text)
    → pair_distance tg tn cg cn c ≡ some (table (tg ++ b'/' ∷ tn) c tg tn cg cn)
unfolding pair_distance
pair_distance-table c tg tn cg cn =
    ground
      (arith, levenshtein-edit tn cn, levenshtein-edit tg cg, levenshtein-edit (tg ++ b'/' ∷ tn) c)

candidate_distance-eq :
    (target c : Text) (cut split : Option (Text × Text))
    → cut_slash target ≡ cut
    → candidate_distance target c cut split ≡ some (spec_of_cuts target c cut split)
unfolding candidate_distance
candidate_distance-eq target c none none e = levenshtein-edit target c
candidate_distance-eq target c none (some (cg, cn)) e = levenshtein-edit target cn
candidate_distance-eq target c (some (tg, tn)) none e =
    rw (cut_slash-append target tg tn e) (levenshtein-edit target c)
candidate_distance-eq target c (some (tg, tn)) (some (cg, cn)) e =
    pair_distance-table c tg tn cg cn
    ∙ ap (λ t. some (table t c tg tn cg cn)) (cut_slash-append target tg tn e)

-- nearestTracepoints never fails, on no candidates and on a limit below one neither, and returns at
-- most as many candidates as the limit allows, none for a limit below one, in the order of the table's
-- distance and then of the alphabet. Each is within half the runes of the target, and no less than 5,
-- and at most twice as far as the closest candidate, and no candidate within both is left out, unless
-- the limit is filled by others that come before it.
pub nearest_tracepoints-IsNearest :
    (target : Text) (candidates : List Text) (limit : ℤ)
    → (out : List Text) × (nearest_tracepoints target candidates limit ≡ some out)
      × IsNearest
          (spec_distance target)
          (max (length (runes target) / 2) 5)
          (most_of limit)
          candidates
          out
unfolding nearest_tracepoints
nearest_tracepoints-IsNearest target cs (negsuc _) =
    ([], refl, nothing_allowed (spec_distance target) _ cs)
nearest_tracepoints-IsNearest target cs (pos zero) =
    ([], refl, nothing_allowed (spec_distance target) _ cs)
nearest_tracepoints-IsNearest target [] (pos (suc n)) =
    ([], refl, nothing_given (spec_distance target) _ (suc n))
nearest_tracepoints-IsNearest target (c ∷ cs) (pos (suc n)) =
    rw
      (score_all-map (λ a. candidate_distance target a (cut_slash target) (cut_slash a))
        (spec_distance target)
        (λ a. candidate_distance-eq target a (cut_slash target) (cut_slash a) refl) (c ∷ cs))
      (choose-IsNearest (spec_distance target) _ (suc n) c cs)
