-- ===== src/Examples/Suggestions.antt =====
-- Distances and suggestions at concrete names.
use go_bpfman.Prelude.{◌↔◌, ◌≡◌, ◌≤◌, refl, ℕ, ◌+◌, pos, negsuc, codes, Text, List, [], ◌∷◌, some}
use go_bpfman.Distance.{levenshtein}
use go_bpfman.Distance.Runes.{runes}
use go_bpfman.Distance.Least.{IsLeastPrice, levenshtein-IsLeastPrice, levenshtein_metric}
use go_bpfman.Nearest.{nearest}
use go_bpfman.Nearest.Contract.{IsNearest}
use go_bpfman.Nearest.Correct.{distance_to, nearest-IsNearest}
use go_bpfman.Nearest.Tracepoints.{
  nearest_tracepoints, spec_distance, nearest_tracepoints-IsNearest,
}

abbrev kitten : Text
kitten = codes "kitten"

abbrev sitting : Text
sitting = codes "sitting"

distances :
    (levenshtein kitten sitting ≡ some 3)
    × (levenshtein sitting [] ≡ some 7)
    × (levenshtein kitten [] ≡ some 6)
unfolding levenshtein
distances = (refl, refl, refl)

levenshtein-IsLeastPrice_example :
    (d : ℕ) × (levenshtein kitten sitting ≡ some d) × IsLeastPrice kitten sitting d
levenshtein-IsLeastPrice_example = levenshtein-IsLeastPrice kitten sitting

levenshtein_metric_example :
    (levenshtein sitting kitten ≡ some 3)
    × ((◌≡◌ {A = ℕ} 3 0) ↔ (runes kitten ≡ runes sitting))
    × (6 ≤ 3 + 7)
levenshtein_metric_example =
    levenshtein_metric kitten sitting [] distances.0 distances.1 distances.2

-- A short name picks up no unrelated suggestion, but a miss by one edit is one.
short_names :
    (nearest (codes "ip") (codes "main" ∷ []) (pos 1) ≡ some [])
    × (nearest (codes "rn") (codes "run" ∷ []) (pos 1) ≡ some (codes "run" ∷ []))
    × (nearest (codes "rn") (codes "run" ∷ []) (negsuc 0) ≡ some [])
    × (nearest (codes "rn") [] (pos 1) ≡ some [])
unfolding nearest
short_names = (refl, refl, refl, refl)

abbrev commands : List Text
commands = codes "detach" ∷ codes "load" ∷ codes "unload" ∷ []

nearest-IsNearest_example :
    (out : List Text) × (nearest (codes "laod") (codes "attach" ∷ commands) (pos 2) ≡ some out)
    × IsNearest (distance_to (codes "laod")) 3 2 (codes "attach" ∷ commands) out
unfolding runes
nearest-IsNearest_example = nearest-IsNearest (codes "laod") (codes "attach" ∷ commands) (pos 2)

abbrev catalogue : List Text
catalogue = codes "sched/sched_waking" ∷ codes "syscalls/sys_enter_open" ∷ []

-- A fragment under the wrong group, and a name without its group.
tracepoints :
    (nearest_tracepoints (codes "foo/sched") (codes "sched/sched_switch" ∷ catalogue) (pos 3)
      ≡ some (codes "sched/sched_switch" ∷ codes "sched/sched_waking" ∷ []))
    × (nearest_tracepoints (codes "sched_swtch") (codes "sched/sched_switch" ∷ catalogue) (pos 3)
        ≡ some (codes "sched/sched_switch" ∷ []))
unfolding nearest_tracepoints levenshtein
tracepoints = (refl, refl)

nearest_tracepoints-IsNearest_example :
    (out : List Text) × (nearest_tracepoints
        (codes "foo/sched")
        (codes "sched/sched_switch" ∷ catalogue)
        (pos 3)
      ≡ some out)
    × IsNearest (spec_distance (codes "foo/sched")) 5 3 (codes "sched/sched_switch" ∷ catalogue) out
unfolding runes
nearest_tracepoints-IsNearest_example =
    nearest_tracepoints-IsNearest (codes "foo/sched") (codes "sched/sched_switch" ∷ catalogue)
      (pos 3)
