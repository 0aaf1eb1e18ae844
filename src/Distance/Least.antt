-- ===== src/Distance/Least.antt =====
-- `Levenshtein` against edit scripts.
use go_bpfman.Prelude.{ℕ, ◌+◌, ◌≤◌, ◌≡◌, sym, ap, ◌∙◌, Text, some, arith}
use mathlib.Core.Logic.{◌↔◌}
use mathlib.Core.Option.{some-injective}
use go_bpfman.Distance.{levenshtein}
use go_bpfman.Distance.Rows.{distance_of_runes-edit}
use go_bpfman.Distance.Runes.{runes}
use go_bpfman.Distance.Scripts.{Script, price, edit, edit-le-price, edit_attained}
use go_bpfman.Distance.Scripts.Metric.{edit_comm, edit_self, edit_zero, edit_triangle}

pub levenshtein-edit : (a b : Text) → levenshtein a b ≡ some (edit (runes a) (runes b))
unfolding levenshtein
levenshtein-edit a b = distance_of_runes-edit (runes a) (runes b)

-- Some script turns the runes of `a` into those of `b` at the price `d`, and none is cheaper.
pub record IsLeastPrice (a b : Text) (d : ℕ) : Type 0 where
  pub attained : (e : Script (runes a) (runes b)) × (price e ≡ d)
  pub least : (e : Script (runes a) (runes b)) → d ≤ price e

-- Levenshtein never reads or writes outside its two rows, and returns the least number of insertions, deletions and
-- replacements of one rune by another that turn the runes of the first string into the runes of the second.
pub levenshtein-IsLeastPrice :
    (a b : Text) → (d : ℕ) × (levenshtein a b ≡ some d) × IsLeastPrice a b d
levenshtein-IsLeastPrice a b = (
  edit (runes a) (runes b),
  levenshtein-edit a b,
  record { attained = edit_attained (runes a) (runes b); least = edit-le-price },
)

edit-levenshtein : (a b : Text) {d : ℕ} → levenshtein a b ≡ some d → edit (runes a) (runes b) ≡ d
edit-levenshtein a b h = some-injective _ _ (sym (levenshtein-edit a b) ∙ h)

-- Levenshtein is a metric on the decoded strings: the order of its arguments does not matter, it is
-- 0 exactly when both strings have the same runes, and a detour over a third string is no shorter.
pub levenshtein_metric :
    (a b c : Text) {d e f : ℕ}
    → levenshtein a b ≡ some d
    → levenshtein b c ≡ some e
    → levenshtein a c ≡ some f
    → (levenshtein b a ≡ some d) × ((d ≡ 0) ↔ (runes a ≡ runes b)) × (f ≤ d + e)
levenshtein_metric a b c {d} {e} {f} h k l =
    let p = edit-levenshtein a b h in
    let q = edit-levenshtein b c k in
    let r = edit-levenshtein a c l in
    (
      levenshtein-edit b a ∙ ap some (edit_comm (runes b) (runes a) ∙ p),
      (
        λ z. edit_zero (runes a) (runes b) (p ∙ z),
        λ z. sym p ∙ ap (edit (runes a)) (sym z) ∙ edit_self (runes a),
      ),
      omega (arith, edit_triangle (runes a) (runes b) (runes c)),
    )
