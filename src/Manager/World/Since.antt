-- ===== src/Manager/World/Since.antt =====
-- What holds of the calls made since a given moment.
use go_bpfman.Prelude.{◌≡◌, ap, ◌∷◌, ◌++◌, Option, none, some, All}
use go_bpfman.Errors.{Err}
use go_bpfman.Exec.{Outcome, ok, err, panic, Exec}
use go_bpfman.Exec.Ends.{Ends}
use go_bpfman.World.{Log, Env}
use go_bpfman.Manager.World.{
  Call, delete_program, load_program, Event, done, failed, panicked, Trace, World, ManagerEnv,
  invoke, rebuilding, event_of,
}

abbrev pub call_of : Event → Call
call_of (done c) = c
call_of (failed c _) = c
call_of (panicked c) = c

-- Neither the deletion of a program's record nor a load.
abbrev pub IsOther : Call → Type 0
IsOther (delete_program _) = ⊥
IsOther (load_program _) = ⊥
IsOther _ = Unit

-- No record was deleted, nor was a program loaded.
abbrev pub NoDeletion : Trace → Type 0
NoDeletion new = All (λ ev. IsOther (call_of ev)) new

-- The new calls satisfy `P`.
abbrev pub Since : World → (Trace → Type 0) → World → Type 0
Since start P w = (new : Trace) × (w.trace ≡ new ++ start.trace) × P new

pub Since-cons :
    (start : World) (P Q : Trace → Type 0) (ev : Event) (w : World) (log : Log)
    → ((new : Trace) → P new → Q (ev ∷ new))
    → Since start P w
    → Since start Q (record { trace = ev ∷ w.trace; log = log })
Since-cons start P Q ev w log f (new, p, h) = (ev ∷ new, ap (λ t. ev ∷ t) p, f new h)

pub Since-weaken :
    (start : World) (P Q : Trace → Type 0) (w : World)
    → ((new : Trace) → P new → Q new)
    → Since start P w
    → Since start Q w
Since-weaken start P Q w f (new, p, h) = (new, p, f new h)

module _ (env : ManagerEnv) where
  -- The world after a call whose error is logged.
  abbrev pub after_call : Call → World → World
  after_call c w = record w {
    trace = elim (env.fails w c) [ none ↦ done c | some e ↦ failed c e ] ∷ w.trace;
  }

  -- A call, by what its two events make of what held before.
  pub invoke-Ends :
      {A : Type 0} (E : Err → World → Type 0) (Q : A → World → Type 0) (c : Call)
      (value : World → A) (w : World)
      → Q (value w) (record w { trace = done c ∷ w.trace })
      → ((e : Err) → E e (record w { trace = failed c e ∷ w.trace }))
      → Ends E Q (invoke env c value w)
  unfolding invoke
  invoke-Ends {A} E Q c value w good bad = go (env.fails w c)
    where
      go :
          (o : Option Err)
          → Ends E Q (elim o [
            | none ↦ (ok (value w), record w { trace = done c ∷ w.trace })
            | some e ↦ (err e, record w { trace = failed c e ∷ w.trace })
          ])
      go none = good
      go (some e) = bad e

  module _ (start : World) (P : Trace → Type 0)
      (closed : (ev : Event) (new : Trace) → IsOther (call_of ev) → P new → P (ev ∷ new)) where
    -- A call other than a deletion keeps what such calls keep.
    pub invoke_keeps :
        {A : Type 0} (c : Call) (value : World → A) (w : World)
        → IsOther c
        → Since start P w
        → Ends (λ _. Since start P) (λ _. Since start P) (invoke env c value w)
    invoke_keeps c value w other s =
        invoke-Ends (λ _. Since start P) (λ _. Since start P) c value w
          (Since-cons start P P (done c) w w.log (λ new. closed (done c) new other) s)
          (λ e. Since-cons start P P (failed c e) w w.log (λ new. closed (failed c e) new other) s)

    pub rebuilding_keeps :
        (c : Call) (m : Env → Exec Log (Unit {0})) (w : World)
        → IsOther c
        → Since start P w
        → Ends (λ _. Since start P) (λ _. Since start P) (rebuilding env c m w)
    unfolding rebuilding
    rebuilding_keeps c m w other s = go (m (env.dispatchers w) w.log)
      where
        go :
            (r : Outcome (Unit {0}) × Log)
            → Ends
                (λ _. Since start P)
                (λ _. Since start P)
                (r.0, record { trace = event_of c r.0 ∷ w.trace; log = r.1 })
        go (ok u, l) = Since-cons start P P (done c) w l (λ new. closed (done c) new other) s
        go (err e, l) =
            Since-cons start P P (failed c e) w l (λ new. closed (failed c e) new other) s
        go (panic m, l) = tt
