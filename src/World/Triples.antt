-- ===== src/World/Triples.antt =====
-- Rules for what holds after a computation that logs its calls: `Post E Q r` says that `Q` holds of
-- the value and the log where `r` is a result, and `E` of the log where it is an error.
use go_bpfman.Prelude.{Bool, if◌then◌else◌, ◌≡◌, String, Text, List, ◌∷◌, Option, none, some}
use go_bpfman.Errors.{Err}
use go_bpfman.Exec.{Outcome, ok, err, Exec, proceed, recover, dropped, wrapped}
use go_bpfman.Exec.Ends.{
  Ends, Ends-wrapped, Ends-if, Ends-weaken, Ends_err, Ends-dropped, Ends-bind, Ends-on_error,
}
use go_bpfman.World.{Call, done, failed, Log, Env, invoke}
use go_bpfman.World.Pins.{CallPins, CallReleases, Within, Within-quiet, Within-pin, Within-release}

module _ {A : Type 0} where
  abbrev pub Post : (Log → Type 0) → (A → Log → Type 0) → Outcome A × Log → Type 0
  Post E Q r = Ends (λ _. E) Q r

  pub Post_wrapped :
      (E : Log → Type 0) (Q : A → Log → Type 0) (label : String) (r : Outcome A × Log)
      → Post E Q r
      → Post E Q (wrapped label r)
  Post_wrapped E Q label r h = Ends-wrapped (λ _. E) Q label r h

  pub Post_if :
      (E : Log → Type 0) (Q : A → Log → Type 0) (b : Bool) (m n : Exec Log A) (l : Log)
      → Post E Q (m l)
      → Post E Q (n l)
      → Post E Q ((if b then m else n) l)
  Post_if E Q b m n l h k = Ends-if (λ _. E) Q b m n l (λ _. h) (λ _. k)

  pub Post_weaken :
      (E : Log → Type 0) (Q R : A → Log → Type 0) (r : Outcome A × Log)
      → Post E Q r
      → ((a : A) (l : Log) → Q a l → R a l)
      → Post E R r
  Post_weaken E Q R r h f = Ends-weaken (λ _. E) (λ _. E) Q R r h (λ e l d. d) f

  pub Post_err :
      (E : Log → Type 0) (Q : A → Log → Type 0) (r : Outcome A × Log) (e : Err) (l : Log)
      → Post E Q r
      → r ≡ (err e, l)
      → E l
  Post_err E Q r e l h p = Ends_err (λ _. E) Q r e l h p

module _ {A : Type 0} where
  -- A logged error is none: what holds on either outcome holds after it.
  pub Post_dropped :
      (D E R : Log → Type 0) (Q : A → Log → Type 0) (r : Outcome A × Log)
      → Post E Q r
      → ((l : Log) → E l → R l)
      → ((a : A) (l : Log) → Q a l → R l)
      → Post D (λ _ l. R l) (dropped r)
  Post_dropped D E R Q r h f g = Ends-dropped (λ _. E) (λ _. D) Q R r h (λ e. f) g

module _ {A B : Type 0} where
  pub Post_bind :
      (E : Log → Type 0) (Q : A → Log → Type 0) (R : B → Log → Type 0) (r : Outcome A × Log)
      (f : A → Exec Log B)
      → Post E Q r
      → ((a : A) (l : Log) → Q a l → Post E R (f a l))
      → Post E R (proceed r f)
  Post_bind E Q R r f h k = Ends-bind (λ _. E) Q R r f h k

  pub Post_on_error :
      (D E : Log → Type 0) (Q : A → Log → Type 0) (R : B → Log → Type 0) (r : Outcome A × Log)
      (onerr : Err → Exec Log B) (f : A → Exec Log B)
      → Post D Q r
      → ((e : Err) (l : Log) → D l → Post E R (onerr e l))
      → ((a : A) (l : Log) → Q a l → Post E R (f a l))
      → Post E R (recover r onerr f)
  Post_on_error D E Q R r onerr f h g k = Ends-on_error (λ _. D) (λ _. E) Q R r onerr f h g k

-- What holds after a success and after a failure of a call holds after the call.
pub Post_invoke :
    {A : Type 0} (env : Env) (E : Log → Type 0) (Q : A → Log → Type 0) (c : Call) (value : Log → A)
    (log : Log)
    → Q (value log) (done c ∷ log)
    → ((x : Err) → E (failed c x ∷ log))
    → Post E Q (invoke env c value log)
unfolding invoke
Post_invoke env E Q c value log good bad = go (env.fails log c)
  where
    go :
        (o : Option Err)
        → Post E Q
            (elim o [ none ↦ (ok (value log), done c ∷ log) | some e ↦ (err e, failed c e ∷ log) ])
    go none = good
    go (some x) = bad x

module _ (env : Env) {A : Type 0} (start : Log) (ps : List Text) where
  -- A call that pins nothing, whatever its outcome.
  pub invoke_quiet :
      (c : Call) (value : Log → A) (log : Log)
      → ((p : Text) → ¬ (CallPins c p))
      → Within start ps log
      → Post (Within start ps) (λ _. Within start ps) (invoke env c value log)
  invoke_quiet c value log quiet w =
      Post_invoke env (Within start ps) (λ _. Within start ps) c value log
        (Within-quiet start ps log (done c) quiet w)
        (λ x. Within-quiet start ps log (failed c x) (λ p h. h) w)

  -- A call that pins `q` where it succeeds.
  pub invoke_pin :
      (c : Call) (value : Log → A) (log : Log) (q : Text)
      → ((p : Text) → CallPins c p → p ≡ q)
      → Within start ps log
      → Post (Within start ps) (λ _. Within start (q ∷ ps)) (invoke env c value log)
  invoke_pin c value log q only w =
      Post_invoke env (Within start ps) (λ _. Within start (q ∷ ps)) c value log
        (Within-pin start ps log (done c) q only w)
        (λ x. Within-quiet start ps log (failed c x) (λ p h. h) w)

  -- A call that asks for the removal of `q`, whatever its outcome.
  pub invoke_release :
      (c : Call) (value : Log → A) (log : Log) (q : Text)
      → ((p : Text) → ¬ (CallPins c p))
      → ((p : Text) → p ≡ q → CallReleases c p)
      → Within start (q ∷ ps) log
      → Post (Within start ps) (λ _. Within start ps) (invoke env c value log)
  invoke_release c value log q quiet gone w =
      Post_invoke env (Within start ps) (λ _. Within start ps) c value log
        (Within-release start ps log (done c) q quiet gone w)
        (λ x. Within-release start ps log (failed c x) q (λ p h. h) gone w)
