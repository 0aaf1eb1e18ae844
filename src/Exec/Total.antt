-- ===== src/Exec/Total.antt =====
-- Rules for a computation that returns from every world, with a value or with an error.
use go_bpfman.Prelude.{Bool, true, false, if◌then◌else◌, String}
use go_bpfman.Errors.{Err}
use go_bpfman.Exec.{
  Outcome, ok, err, panic, Exec, pure, fail, ◌>>=◌, wrapping, logged, attempt, on_error, proceed,
  recover, dropped, wrapped, caught,
}

module _ {W A : Type 0} where
  abbrev pub Returned : Outcome A × W → Type 0
  Returned (ok a, w) = Unit
  Returned (err e, w) = Unit
  Returned (panic m, w) = ⊥

  -- It never panics.
  unfoldable pub IsTotal : Exec W A → Type 0
  IsTotal m = (w : W) → Returned (m w)

module _ {W A : Type 0} where
  pub logged-IsTotal : (m : Exec W A) → IsTotal m → IsTotal (logged m)
  unfolding IsTotal
  logged-IsTotal m h w = go (m w) (h w)
    where
      go : (r : Outcome A × W) → Returned r → Returned (dropped r)
      go (ok a, v) k = tt
      go (err e, v) k = tt
      go (panic m, v) k = k

  pub attempt-IsTotal : (m : Exec W A) → IsTotal m → IsTotal (attempt m)
  unfolding IsTotal
  attempt-IsTotal m h w = go (m w) (h w)
    where
      go : (r : Outcome A × W) → Returned r → Returned (caught r)
      go (ok a, v) k = tt
      go (err e, v) k = tt
      go (panic m, v) k = k

module _ {W A : Type 0} where
  pub wrapping-IsTotal : (label : String) (m : Exec W A) → IsTotal m → IsTotal (wrapping label m)
  unfolding IsTotal
  wrapping-IsTotal label m h w = go (m w) (h w)
    where
      go : (r : Outcome A × W) → Returned r → Returned (wrapped label r)
      go (ok a, v) k = tt
      go (err e, v) k = tt
      go (panic m, v) k = k

  pub if-IsTotal :
      (b : Bool) (m n : Exec W A) → IsTotal m → IsTotal n → IsTotal (if b then m else n)
  if-IsTotal true m n h k = h
  if-IsTotal false m n h k = k

module _ {W A B : Type 0} where
  pub bind-IsTotal :
      (m : Exec W A) (f : A → Exec W B) → IsTotal m → ((a : A) → IsTotal (f a)) → IsTotal (m >>= f)
  unfolding IsTotal
  bind-IsTotal m f h k w = go (m w) (h w)
    where
      go : (r : Outcome A × W) → Returned r → Returned (proceed r f)
      go (ok a, v) i = k a v
      go (err e, v) i = tt
      go (panic m, v) i = i

  pub on_error-IsTotal :
      (m : Exec W A) (onerr : Err → Exec W B) (f : A → Exec W B)
      → IsTotal m
      → ((e : Err) → IsTotal (onerr e))
      → ((a : A) → IsTotal (f a))
      → IsTotal (on_error m onerr f)
  unfolding IsTotal
  on_error-IsTotal m onerr f h g k w = go (m w) (h w)
    where
      go : (r : Outcome A × W) → Returned r → Returned (recover r onerr f)
      go (ok a, v) i = k a v
      go (err e, v) i = g e v
      go (panic m, v) i = i

module _ {W A : Type 0} where
  -- It returns an error, or a value of which `Q` holds.
  abbrev pub Returning : (A → Type 0) → Outcome A × W → Type 0
  Returning Q (ok a, w) = Q a
  Returning Q (err e, w) = Unit
  Returning Q (panic m, w) = ⊥

module _ {W A B : Type 0} where
  pub on_error_where-IsTotal :
      (Q : A → Type 0) (m : Exec W A) (onerr : Err → Exec W B) (f : A → Exec W B)
      → ((w : W) → Returning Q (m w))
      → ((e : Err) → IsTotal (onerr e))
      → ((a : A) → Q a → IsTotal (f a))
      → IsTotal (on_error m onerr f)
  unfolding IsTotal
  on_error_where-IsTotal Q m onerr f h g k w = go (m w) (h w)
    where
      go : (r : Outcome A × W) → Returning Q r → Returned (recover r onerr f)
      go (ok a, v) i = k a i v
      go (err e, v) i = g e v
      go (panic m, v) i = i

pub pure-IsTotal : (W : Type 0) {A : Type 0} (a : A) → IsTotal {W = W} (pure a)
unfolding IsTotal
pure-IsTotal W a w = tt

pub fail-IsTotal : (W A : Type 0) (e : Err) → IsTotal {W = W} {A = A} (fail e)
unfolding IsTotal
fail-IsTotal W A e w = tt
