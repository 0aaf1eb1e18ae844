-- ===== src/Exec/Ends.antt =====
-- Rules for how a computation ends: `Ends E Q r` says that `Q` holds of the value and the world where
-- `r` is a result, and `E` of the error and the world where it is an error.
use mathlib.Core.Path.{subst}
use go_bpfman.Prelude.{Bool, true, false, if◌then◌else◌, ◌≡◌, refl, String, Option, none, some}
use go_bpfman.Errors.{Err, wrap}
use go_bpfman.Exec.{Outcome, ok, err, panic, Exec, proceed, recover, dropped, wrapped, caught}

module _ {W A : Type 0} where
  abbrev pub Ends : (Err → W → Type 0) → (A → W → Type 0) → Outcome A × W → Type 0
  Ends E Q (ok a, w) = Q a w
  Ends E Q (err e, w) = E e w
  Ends E Q (panic m, w) = Unit

  pub Ends-wrapped :
      (E : Err → W → Type 0) (Q : A → W → Type 0) (label : String) (r : Outcome A × W)
      → Ends (λ e. E (wrap label e)) Q r
      → Ends E Q (wrapped label r)
  Ends-wrapped E Q label (ok a, w) h = h
  Ends-wrapped E Q label (err e, w) h = h
  Ends-wrapped E Q label (panic m, w) h = h

  pub Ends-if :
      (E : Err → W → Type 0) (Q : A → W → Type 0) (b : Bool) (m n : Exec W A) (w : W)
      → (b ≡ true → Ends E Q (m w))
      → (b ≡ false → Ends E Q (n w))
      → Ends E Q ((if b then m else n) w)
  Ends-if E Q true m n w h k = h refl
  Ends-if E Q false m n w h k = k refl

  pub Ends-weaken :
      (D E : Err → W → Type 0) (Q R : A → W → Type 0) (r : Outcome A × W)
      → Ends D Q r
      → ((e : Err) (w : W) → D e w → E e w)
      → ((a : A) (w : W) → Q a w → R a w)
      → Ends E R r
  Ends-weaken D E Q R (ok a, w) h f g = g a w h
  Ends-weaken D E Q R (err e, w) h f g = f e w h
  Ends-weaken D E Q R (panic m, w) h f g = tt

  pub Ends_err :
      (E : Err → W → Type 0) (Q : A → W → Type 0) (r : Outcome A × W) (e : Err) (w : W)
      → Ends E Q r
      → r ≡ (err e, w)
      → E e w
  Ends_err E Q r e w h p = subst (Ends E Q) p h

  pub Ends_ok :
      (E : Err → W → Type 0) (Q : A → W → Type 0) (r : Outcome A × W) (a : A) (w : W)
      → Ends E Q r
      → r ≡ (ok a, w)
      → Q a w
  Ends_ok E Q r a w h p = subst (Ends E Q) p h

module _ {W A : Type 0} where
  -- A logged error is none: what holds on either outcome holds after it.
  pub Ends-dropped :
      (D E : Err → W → Type 0) (Q : A → W → Type 0) (R : W → Type 0) (r : Outcome A × W)
      → Ends D Q r
      → ((e : Err) (w : W) → D e w → R w)
      → ((a : A) (w : W) → Q a w → R w)
      → Ends E (λ _ w. R w) (dropped r)
  Ends-dropped D E Q R (ok a, w) h f g = g a w h
  Ends-dropped D E Q R (err e, w) h f g = f e w h
  Ends-dropped D E Q R (panic m, w) h f g = tt

  -- An error that is kept as a value.
  pub Ends-caught :
      (D E : Err → W → Type 0) (Q : A → W → Type 0) (R : Option Err → W → Type 0)
      (r : Outcome A × W)
      → Ends D Q r
      → ((e : Err) (w : W) → D e w → R (some e) w)
      → ((a : A) (w : W) → Q a w → R none w)
      → Ends E R (caught r)
  Ends-caught D E Q R (ok a, w) h f g = g a w h
  Ends-caught D E Q R (err e, w) h f g = f e w h
  Ends-caught D E Q R (panic m, w) h f g = tt

module _ {W A B : Type 0} where
  pub Ends-bind :
      (E : Err → W → Type 0) (Q : A → W → Type 0) (R : B → W → Type 0) (r : Outcome A × W)
      (f : A → Exec W B)
      → Ends E Q r
      → ((a : A) (w : W) → Q a w → Ends E R (f a w))
      → Ends E R (proceed r f)
  Ends-bind E Q R (ok a, w) f h k = k a w h
  Ends-bind E Q R (err e, w) f h k = h
  Ends-bind E Q R (panic m, w) f h k = tt

  pub Ends-on_error :
      (D E : Err → W → Type 0) (Q : A → W → Type 0) (R : B → W → Type 0) (r : Outcome A × W)
      (onerr : Err → Exec W B) (f : A → Exec W B)
      → Ends D Q r
      → ((e : Err) (w : W) → D e w → Ends E R (onerr e w))
      → ((a : A) (w : W) → Q a w → Ends E R (f a w))
      → Ends E R (recover r onerr f)
  Ends-on_error D E Q R (ok a, w) onerr f h g k = k a w h
  Ends-on_error D E Q R (err e, w) onerr f h g k = g e w h
  Ends-on_error D E Q R (panic m, w) onerr f h g k = tt
