-- ===== src/World/Adds.antt =====
-- Rules for what a computation adds to the log, however it ends: `Adds log` says that `log` extends the
-- log `start` by events that satisfy `P`, and `Logs r` that the log that `r` ends with does.
use go_bpfman.Prelude.{
  Bool, true, false, if◌then◌else◌, ◌≡◌, refl, ap, String, [], ◌∷◌, ◌++◌, Option, none, some, All,
}
use go_bpfman.Errors.{Err}
use go_bpfman.Exec.{Outcome, ok, err, panic, Exec, proceed, recover, dropped, wrapped}
use go_bpfman.World.{Call, Event, done, failed, Log, Env, invoke}

module _ (P : Event → Type 0) (start : Log) where
  abbrev pub Adds : Log → Type 0
  Adds log = (new : Log) × (log ≡ new ++ start) × All P new

  pub Adds-refl : Adds start
  Adds-refl = ([], refl, tt)

  pub Adds-cons : (ev : Event) (log : Log) → P ev → Adds log → Adds (ev ∷ log)
  Adds-cons ev log p (new, e, all) = (ev ∷ new, ap (λ l. ev ∷ l) e, (p, all))

  module _ {A : Type 0} where
    -- However it ended.
    abbrev pub Logs : Outcome A × Log → Type 0
    Logs (ok a, l) = Adds l
    Logs (err e, l) = Adds l
    Logs (panic m, l) = Adds l

  module _ {A : Type 0} where
    pub Adds-invoke :
        (env : Env) (c : Call) (value : Log → A) (log : Log)
        → P (done c)
        → ((e : Err) → P (failed c e))
        → Adds log
        → Logs (invoke env c value log)
    unfolding invoke
    Adds-invoke env c value log good bad a = go (env.fails log c)
      where
        go :
            (o : Option Err)
            → Logs {A = A} (elim o [
              | none ↦ (ok (value log), done c ∷ log)
              | some e ↦ (err e, failed c e ∷ log)
            ])
        go none = Adds-cons (done c) log good a
        go (some e) = Adds-cons (failed c e) log (bad e) a

    pub Adds-wrapped : (label : String) (r : Outcome A × Log) → Logs r → Logs (wrapped label r)
    Adds-wrapped label (ok a, l) h = h
    Adds-wrapped label (err e, l) h = h
    Adds-wrapped label (panic m, l) h = h

    pub Adds-dropped : (r : Outcome A × Log) → Logs r → Logs (dropped r)
    Adds-dropped (ok a, l) h = h
    Adds-dropped (err e, l) h = h
    Adds-dropped (panic m, l) h = h

    pub Adds-if :
        (b : Bool) (m n : Exec Log A) (l : Log)
        → Logs (m l)
        → Logs (n l)
        → Logs ((if b then m else n) l)
    Adds-if true m n l h k = h
    Adds-if false m n l h k = k

  module _ {A B : Type 0} where
    pub Adds-bind :
        (r : Outcome A × Log) (f : A → Exec Log B)
        → Logs r
        → ((a : A) (l : Log) → Adds l → Logs (f a l))
        → Logs (proceed r f)
    Adds-bind (ok a, l) f h k = k a l h
    Adds-bind (err e, l) f h k = h
    Adds-bind (panic m, l) f h k = h

    pub Adds-on_error :
        (r : Outcome A × Log) (onerr : Err → Exec Log B) (f : A → Exec Log B)
        → Logs r
        → ((e : Err) (l : Log) → Adds l → Logs (onerr e l))
        → ((a : A) (l : Log) → Adds l → Logs (f a l))
        → Logs (recover r onerr f)
    Adds-on_error (ok a, l) onerr f h g k = k a l h
    Adds-on_error (err e, l) onerr f h g k = g e l h
    Adds-on_error (panic m, l) onerr f h g k = h

  -- However it ended, and on a result the log satisfies `R`.
  module _ {A : Type 0} (R : Log → Type 0) where
    abbrev pub Reaches : Outcome A × Log → Type 0
    Reaches (ok a, l) = Adds l × R l
    Reaches (err e, l) = Adds l
    Reaches (panic m, l) = Adds l

    pub Reaches-Adds : (r : Outcome A × Log) → Reaches r → Logs r
    Reaches-Adds (ok a, l) h = h.0
    Reaches-Adds (err e, l) h = h
    Reaches-Adds (panic m, l) h = h

    pub Reaches-invoke :
        (env : Env) (c : Call) (value : Log → A) (log : Log)
        → P (done c)
        → ((e : Err) → P (failed c e))
        → R (done c ∷ log)
        → Adds log
        → Reaches (invoke env c value log)
    unfolding invoke
    Reaches-invoke env c value log good bad reached a = go (env.fails log c)
      where
        go :
            (o : Option Err)
            → Reaches (elim o [
              | none ↦ (ok (value log), done c ∷ log)
              | some e ↦ (err e, failed c e ∷ log)
            ])
        go none = (Adds-cons (done c) log good a, reached)
        go (some e) = Adds-cons (failed c e) log (bad e) a

    pub Reaches-if :
        (b : Bool) (m n : Exec Log A) (l : Log)
        → Reaches (m l)
        → Reaches (n l)
        → Reaches ((if b then m else n) l)
    Reaches-if true m n l h k = h
    Reaches-if false m n l h k = k

  module _ {A B : Type 0} (R : Log → Type 0) where
    -- A step that comes before what reaches `R`.
    pub Reaches-after :
        (r : Outcome A × Log) (f : A → Exec Log B)
        → Logs r
        → ((a : A) (l : Log) → Adds l → Reaches R (f a l))
        → Reaches R (proceed r f)
    Reaches-after (ok a, l) f h k = k a l h
    Reaches-after (err e, l) f h k = h
    Reaches-after (panic m, l) f h k = h

    -- A value that was computed already.
    pub Reaches-lift :
        (r : Outcome A) (log : Log) (f : A → Exec Log B)
        → Adds log
        → ((a : A) → r ≡ ok a → Reaches R (f a log))
        → Reaches R (proceed (r, log) f)
    Reaches-lift (ok a) log f h k = k a refl
    Reaches-lift (err e) log f h k = h
    Reaches-lift (panic m) log f h k = h

    pub Reaches-bind :
        (Q : Log → Type 0) (r : Outcome A × Log) (f : A → Exec Log B)
        → Reaches Q r
        → ((a : A) (l : Log) → Adds l → Q l → Reaches R (f a l))
        → Reaches R (proceed r f)
    Reaches-bind Q (ok a, l) f h k = k a l h.0 h.1
    Reaches-bind Q (err e, l) f h k = h
    Reaches-bind Q (panic m, l) f h k = h

    pub Reaches-on_error :
        (Q : Log → Type 0) (r : Outcome A × Log) (onerr : Err → Exec Log B) (f : A → Exec Log B)
        → Reaches Q r
        → ((e : Err) (l : Log) → Adds l → Reaches R (onerr e l))
        → ((a : A) (l : Log) → Adds l → Q l → Reaches R (f a l))
        → Reaches R (recover r onerr f)
    Reaches-on_error Q (ok a, l) onerr f h g k = k a l h.0 h.1
    Reaches-on_error Q (err e, l) onerr f h g k = g e l h
    Reaches-on_error Q (panic m, l) onerr f h g k = h

  pub Reaches-weaken :
      {A : Type 0} (Q R : Log → Type 0) (r : Outcome A × Log)
      → ((l : Log) → Q l → R l)
      → Reaches Q r
      → Reaches R r
  Reaches-weaken Q R (ok a, l) f h = (h.0, f l h.1)
  Reaches-weaken Q R (err e, l) f h = h
  Reaches-weaken Q R (panic m, l) f h = h

  -- A call whose error is logged.
  pub Reaches-logged :
      {A : Type 0} (R : Log → Type 0) (env : Env) (c : Call) (value : Log → A) (log : Log)
      → P (done c)
      → ((e : Err) → P (failed c e))
      → ((ev : Event) → R (ev ∷ log))
      → Adds log
      → Reaches R (dropped (invoke env c value log))
  unfolding invoke
  Reaches-logged {A} R env c value log good bad reached a = go (env.fails log c)
    where
      go :
          (o : Option Err)
          → Reaches R (
              dropped {A = A} (elim o [
                | none ↦ (ok (value log), done c ∷ log)
                | some e ↦ (err e, failed c e ∷ log)
              ]))
      go none = (Adds-cons (done c) log good a, reached (done c))
      go (some e) = (Adds-cons (failed c e) log (bad e) a, reached (failed c e))
