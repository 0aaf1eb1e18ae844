-- ===== src/Exec/Settled.antt =====
-- A computation that returns, together with how it ends.
use go_bpfman.Errors.{Err}
use go_bpfman.Exec.{Outcome, ok, err, panic, Exec, proceed, recover}
use go_bpfman.Exec.Ends.{Ends}
use go_bpfman.Exec.Total.{Returned}

module _ {W A : Type 0} where
  abbrev pub Settled : (Err → W → Type 0) → (A → W → Type 0) → Outcome A × W → Type 0
  Settled E Q r = Returned r × Ends E Q r

module _ {W A B : Type 0} where
  pub Settled-bind :
      (E : Err → W → Type 0) (Q : A → W → Type 0) (R : B → W → Type 0) (r : Outcome A × W)
      (f : A → Exec W B)
      → Settled E Q r
      → ((a : A) (w : W) → Q a w → Settled E R (f a w))
      → Settled E R (proceed r f)
  Settled-bind E Q R (ok a, w) f (t, h) k = k a w h
  Settled-bind E Q R (err e, w) f (t, h) k = (tt, h)
  Settled-bind E Q R (panic m, w) f (t, h) k = absurd t

  pub Settled-on_error :
      (D E : Err → W → Type 0) (Q : A → W → Type 0) (R : B → W → Type 0) (r : Outcome A × W)
      (onerr : Err → Exec W B) (f : A → Exec W B)
      → Settled D Q r
      → ((e : Err) (w : W) → D e w → Settled E R (onerr e w))
      → ((a : A) (w : W) → Q a w → Settled E R (f a w))
      → Settled E R (recover r onerr f)
  Settled-on_error D E Q R (ok a, w) onerr f (t, h) g k = k a w h
  Settled-on_error D E Q R (err e, w) onerr f (t, h) g k = g e w h
  Settled-on_error D E Q R (panic m, w) onerr f (t, h) g k = absurd t
