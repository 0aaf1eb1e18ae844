-- ===== src/Lock/Reentry.antt =====
-- The tripwire for a re-entry (`holds` and `run` in lock/lock.go).
use go_bpfman.Prelude.{
  ℕ, zero, suc, ◌<◌, ◌≡◌, refl, Text, true, inl, inr, Bool-cases, List, [], ◌∷◌, All, arith,
}
use go_bpfman.Exec.{Outcome, ok, err, panic, Exec, proceed}
use go_bpfman.Lock.{
  LockWorld, LockEnv, Ctx, Frame, Work, note, missed, waited, has, without, holds, next_backoff,
  acquire_from, open_lock, acquire_writer, release, entering, scoped, run, released,
}

-- The frame is active, and its name is in use.
abbrev pub Live : ℕ → LockWorld → Type 0
Live id w = (id < w.next) × (has w.active id ≡ true)

-- A function that clears no frame that was active before.
abbrev pub KeepsFrames : Work → Type 0
KeepsFrames fn =
    (frames : List Frame) (fd id : ℕ) (w : LockWorld) → Live id w → Live id (fn frames fd w).1

-- A run that a function makes, with whatever context and function.
pub record Nested : Type 0 where
  pub fuel : ℕ
  pub ctx : Ctx
  pub frames : List Frame
  pub path : Text
  pub fn : Work

has-without_ne : (a b : ℕ) (xs : List ℕ) → b < a → has (without a xs) b ≡ has xs b
unfolding has without
has-without_ne a b [] h = refl
has-without_ne a b (x ∷ xs) h = ground (arith, has-without_ne a b xs h)

proceed-Live :
    {A B : Type 0} (id : ℕ) (r : Outcome A × LockWorld) (f : A → Exec LockWorld B)
    → Live id r.1
    → ((a : A) (w : LockWorld) → Live id w → Live id (f a w).1)
    → Live id (proceed r f).1
proceed-Live id (ok a, w) f h k = k a w h
proceed-Live id (err e, w) f h k = h
proceed-Live id (panic m, w) f h k = h

module _ (env : LockEnv) (id : ℕ) where
  open_lock-Live : (w : LockWorld) → Live id w → Live id (open_lock env w).1
  unfolding open_lock
  open_lock-Live w h = ground (arith, h)

  acquire_from-Live :
      (fuel : ℕ) (ctx : Ctx) (fd backoff : ℕ) (w : LockWorld)
      → Live id w
      → Live id (acquire_from env fuel ctx fd backoff w).1
  unfolding acquire_from
  acquire_from-Live zero ctx fd backoff w h = h
  acquire_from-Live (suc fuel) ctx fd backoff w h = ground (
    arith,
    h,
    acquire_from-Live fuel ctx fd (next_backoff backoff)
        (note (waited fd backoff) (note (missed fd) w)) h,
  )

  released-Live :
      (fd : ℕ) (frame : ℕ) (r : Outcome (Unit {0}) × LockWorld)
      → id < frame
      → Live id r.1
      → Live id (released fd frame r).1
  unfolding released release
  released-Live fd frame (o, v) lt h = (h.0, rw (has-without_ne frame id v.active lt) h.1)

  entering-Live : (w : LockWorld) → Live id w → Live id (entering w)
  unfolding entering has
  entering-Live w h = (omega (arith, h.0), ground (arith, h.1))

  -- A run clears no frame but its own.
  run-Live :
      (n : Nested) (w : LockWorld)
      → KeepsFrames n.fn
      → Live id w
      → Live id (run env n.fuel n.ctx n.frames n.path n.fn w).1
  unfolding run acquire_writer scoped
  run-Live n w keeps h = elim (Bool-cases (holds n.frames n.path w)) [
    | inl e ↦ rw e h
    | inr e ↦ rw e (
        proceed-Live id (acquire_writer env n.fuel n.ctx w) _
          (proceed-Live id (open_lock env w) _ (open_lock-Live w h) (λ fd v k.
            proceed-Live id (acquire_from env n.fuel n.ctx fd 1 v) _
              (acquire_from-Live n.fuel n.ctx fd 1 v k) (λ _ u l. l)))
          (λ fd v k.
            let frames : List Frame = record { path = n.path; id = v.next } ∷ n.frames in
            released-Live fd v.next (n.fn frames fd (entering v)) k.0
              (keeps frames fd id (entering v) (entering-Live v k))))
  ]

module _ (env : LockEnv) where
  -- The world after some runs, in turn.
  unfoldable pub after_runs : List Nested → LockWorld → LockWorld
  unfolding run
  after_runs [] w = w
  after_runs (n ∷ runs) w = after_runs runs (run env n.fuel n.ctx n.frames n.path n.fn w).1

  after_runs-Live :
      (id : ℕ) (runs : List Nested) (w : LockWorld)
      → All (λ n. KeepsFrames n.fn) runs
      → Live id w
      → Live id (after_runs runs w)
  unfolding after_runs
  after_runs-Live id [] w all h = h
  after_runs-Live id (n ∷ runs) w all h =
      after_runs-Live id runs _ all.1 (run-Live env id n w all.0 h)

  -- A function that only makes such runs is such a function.
  pub after_runs-KeepsFrames :
      (o : Outcome (Unit {0})) (runs : List Nested)
      → All (λ n. KeepsFrames n.fn) runs
      → KeepsFrames (λ _ _ w. (o, after_runs runs w))
  after_runs-KeepsFrames o runs all frames fd id w h = after_runs-Live id runs w all h
