-- ===== src/Nearest/Contract.antt =====
-- What a list of suggestions promises, whatever the distance.
use go_bpfman.Prelude.{
  ℕ, ℤ, pos, negsuc, ◌*◌, ◌≤◌, ◌≡◌, refl, ◌⊎◌, inr, Text, List, [], map, length, All, In, arith,
}
use go_bpfman.Nearest.{Scored}
use go_bpfman.Nearest.Order.{◌≼◌, IsSorted}

-- How many suggestions a limit allows.
abbrev pub most_of : ℤ → ℕ
most_of (pos n) = n
most_of (negsuc _) = 0

module _ (d : Text → ℕ) where
  abbrev pub score : Text → Scored
  score c = record { text = c; dist = d c }

  -- Within the absolute furthest, and at most twice as far as each of the candidates.
  abbrev pub Close : ℕ → List Text → Text → Type 0
  Close furthest candidates s = (d s ≤ furthest) × All (λ c. d s ≤ 2 * d c) candidates

  -- At most `limit` suggestions, each a close candidate, the closest first and those as close in
  -- the order of the alphabet; a close candidate is left out only where there are `limit` others
  -- that come before it.
  pub record IsNearest (furthest limit : ℕ) (candidates out : List Text) : Type 0 where
    pub count : length out ≤ limit
    pub close : All (λ s. In s candidates × Close furthest candidates s) out
    pub ordered : IsSorted (map score out)
    pub complete :
        (c : Text)
        → In c candidates
        → Close furthest candidates c
        → In c out ⊎ ((length out ≡ limit) × All (λ s. score s ≼ score c) out)

  -- No suggestion is the right answer where none is allowed, and where there is no candidate.
  pub nothing_allowed : (furthest : ℕ) (candidates : List Text) → IsNearest furthest 0 candidates []
  nothing_allowed furthest candidates = record {
    count = omega arith;
    close = tt;
    ordered = tt;
    complete = λ c i h. inr (refl, tt);
  }

  pub nothing_given : (furthest limit : ℕ) → IsNearest furthest limit [] []
  nothing_given furthest limit = record {
    count = omega arith;
    close = tt;
    ordered = tt;
    complete = λ c i h. absurd i;
  }
