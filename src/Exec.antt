-- ===== src/Exec.antt =====
-- Functions that act on a world and may return an error or panic. What was done before the error
-- stays done, so the world comes back beside each outcome.
pub mod Ends
pub mod Total
pub mod Settled
use go_bpfman.Prelude.{◌≡◌, refl, ◌⊎◌, inl, inr, String, Option, none, some}
use go_bpfman.Errors.{Err, wrap}

pub data Outcome (A : Type 0) : Type 0 where
  ok : A → Outcome A
  err : Err → Outcome A
  panic : String → Outcome A

abbrev pub Exec : Type 0 → Type 0 → Type 0
Exec W A = W → Outcome A × W

module _ {W A : Type 0} where
  abbrev pub pure : A → Exec W A
  pure a w = (ok a, w)

  abbrev pub fail : Err → Exec W A
  fail e w = (err e, w)

  abbrev pub panics : String → Exec W A
  panics m w = (panic m, w)

  -- `return fmt.Errorf("label: %w", err)` on the error path
  abbrev pub wrapped : String → Outcome A × W → Outcome A × W
  wrapped label (ok a, w) = (ok a, w)
  wrapped label (err e, w) = (err (wrap label e), w)
  wrapped label (panic m, w) = (panic m, w)

  abbrev pub wrapping : String → Exec W A → Exec W A
  wrapping label m w = wrapped label (m w)

  pub Outcome-cases :
      (p : Outcome A × W)
      → ((a : A) × (p ≡ (ok a, p.1)))
        ⊎ ((e : Err) × (p ≡ (err e, p.1)))
        ⊎ ((m : String) × (p ≡ (panic m, p.1)))
  Outcome-cases (ok a, w) = inl (a, refl)
  Outcome-cases (err e, w) = inr (inl (e, refl))
  Outcome-cases (panic m, w) = inr (inr (m, refl))

module _ {W A B : Type 0} where
  abbrev pub proceed : Outcome A × W → (A → Exec W B) → Outcome B × W
  proceed (ok a, w) f = f a w
  proceed (err e, w) f = (err e, w)
  proceed (panic m, w) f = (panic m, w)

  infixl 5 ◌>>=◌ ◌>>◌
  abbrev pub ◌>>=◌ : Exec W A → (A → Exec W B) → Exec W B
  ◌>>=◌ m f w = proceed (m w) f

  abbrev pub ◌>>◌ : Exec W A → Exec W B → Exec W B
  ◌>>◌ m k w = proceed (m w) (λ _. k)

  abbrev pub recover : Outcome A × W → (Err → Exec W B) → (A → Exec W B) → Outcome B × W
  recover (ok a, w) onerr f = f a w
  recover (err e, w) onerr f = onerr e w
  recover (panic m, w) onerr f = (panic m, w)

  -- `v, err := m(); if err != nil { ... }` with both continuations
  abbrev pub on_error : Exec W A → (Err → Exec W B) → (A → Exec W B) → Exec W B
  on_error m onerr f w = recover (m w) onerr f

-- `if err := m(); err != nil { log }`: the error is dropped, a panic is not
module _ {W A : Type 0} where
  abbrev pub dropped : Outcome A × W → Outcome (Unit {0}) × W
  dropped (ok a, w) = (ok tt, w)
  dropped (err e, w) = (ok tt, w)
  dropped (panic m, w) = (panic m, w)

  abbrev pub logged : Exec W A → Exec W (Unit {0})
  logged m w = dropped (m w)

  -- The error of a call, kept as a value.
  abbrev pub caught : Outcome A × W → Outcome (Option Err) × W
  caught (ok a, w) = (ok none, w)
  caught (err e, w) = (ok (some e), w)
  caught (panic m, w) = (panic m, w)

  abbrev pub attempt : Exec W A → Exec W (Option Err)
  attempt m w = caught (m w)
