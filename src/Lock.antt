-- ===== src/Lock.antt =====
-- The writer lock (lock/lock.go): the acquisition with its backoff, the scope in which a function
-- runs under the lock, the tripwire for a re-entry, and the translation of a timeout. What the
-- system answers is a parameter, which may depend on all that happened before.
pub mod Acquire
pub mod Scope
pub mod Waits
pub mod Reentry
pub mod Timeout
use go_bpfman.Prelude.{
  ℕ, zero, suc, ◌*◌, String, Text, text_eq, Bool, true, false, ◌&&◌, ◌||◌, not, List, [], ◌∷◌,
  Option, none, some, ◌==◌, ltb, if◌then◌else◌,
}
use go_bpfman.Errors.{Err, wrap, canceled, deadline_exceeded, timeout_error, is_deadline_exceeded}
use go_bpfman.Exec.{Outcome, ok, err, panic, Exec, pure, panics, ◌>>=◌, ◌>>◌}

-- What happens to a descriptor of a lock file, newest first in a trace.
pub data Event : Type 0 where
  opened : (fd : ℕ) → Event
  missed : (fd : ℕ) → Event
  waited : (fd : ℕ) (ms : ℕ) → Event
  locked : (fd : ℕ) → Event
  closed : (fd : ℕ) → Event

abbrev pub Trace : Type 0
Trace = List Event

pub record LockWorld : Type 0 where
  pub trace : Trace
  -- The least number that names no descriptor, frame or variable.
  pub next : ℕ
  -- The frames whose flag `active` is set.
  pub active : List ℕ
  -- The variables `acquired` that are set.
  pub acquired : List ℕ

-- Why a context is done.
pub data Done : Type 0 where
  by_cancel : Done
  by_parent_deadline : Done
  by_lock_timeout : Done

-- ctx.Err()
unfoldable pub ctx_err : Done → Err
ctx_err by_cancel = canceled
ctx_err by_parent_deadline = deadline_exceeded
ctx_err by_lock_timeout = deadline_exceeded

-- The answers of flock(2) with LOCK_EX | LOCK_NB.
pub data Attempt : Type 0 where
  free : Attempt
  would_block : Attempt
  failed : Err → Attempt

-- A context, as what the wait after a miss sees of it.
abbrev pub Ctx : Type 0
Ctx = LockWorld → Option Done

pub record LockEnv : Type 0 where
  pub mkdir : LockWorld → Option Err
  pub open_file : LockWorld → Option Err
  pub flock : LockWorld → ℕ → Attempt
  -- The caller's context, and the one that a timeout bounds.
  pub caller : Ctx
  pub bounded : Ctx
  -- context.Cause of the bounded one.
  pub cause : LockWorld → Option Done

abbrev pub note : Event → LockWorld → LockWorld
note e w = record w { trace = e ∷ w.trace }

unfoldable pub has : List ℕ → ℕ → Bool
has [] a = false
has (x ∷ xs) a = x == a || has xs a

-- Clearing the flag of a frame.
unfoldable pub without : ℕ → List ℕ → List ℕ
without a [] = []
without a (x ∷ xs) = let rest = without a xs in if x == a then rest else x ∷ rest

unfoldable pub next_backoff : ℕ → ℕ
next_backoff b = if ltb b 500 then b * 2 else b

-- heldLocks, without its flag, and the stack of them
pub record Frame : Type 0 where
  pub path : Text
  pub id : ℕ

-- holds
unfoldable pub holds : List Frame → Text → LockWorld → Bool
unfolding has
holds [] path w = false
holds (f ∷ frames) path w = text_eq f.path path && has w.active f.id || holds frames path w

-- A function to run under the lock, given the frames of its context and the descriptor.
abbrev pub Work : Type 0
Work = List Frame → ℕ → Exec LockWorld (Unit {0})

module _ (env : LockEnv) where
  -- The loop of acquireWriter. It need not end; the panic stands for rounds beyond the fuel.
  unfoldable pub acquire_from : ℕ → Ctx → ℕ → ℕ → Exec LockWorld (Unit {0})
  unfolding next_backoff ctx_err
  acquire_from zero ctx fd backoff w = (panic "endless loop", w)
  acquire_from (suc fuel) ctx fd backoff w = elim (env.flock w fd) [
    | free ↦ (ok tt, note (locked fd) w)
    | failed e ↦ (err (wrap "flock" e), note (closed fd) w)
    | would_block ↦ elim (ctx (note (missed fd) w)) [
      | some d ↦ (err (ctx_err d), note (closed fd) (note (missed fd) w))
      | none ↦
          acquire_from fuel ctx fd (next_backoff backoff)
            (note (waited fd backoff) (note (missed fd) w))
    ]
  ]

  -- A descriptor of the lock file.
  pub open_lock : Exec LockWorld ℕ
  open_lock w = elim (env.mkdir w) [
    | some e ↦ (err (wrap "ensure lock dir" e), w)
    | none ↦ elim (env.open_file w) [
      | some e ↦ (err (wrap "open lock file" e), w)
      | none ↦ (ok w.next, record w { trace = opened w.next ∷ w.trace; next = suc w.next })
    ]
  ]

  -- acquireWriter
  unfoldable pub acquire_writer : ℕ → Ctx → Exec LockWorld ℕ
  unfolding acquire_from open_lock
  acquire_writer fuel ctx = do fd ← open_lock; acquire_from fuel ctx fd 1; pure fd

-- What the deferred calls of run leave.
unfoldable pub release : ℕ → ℕ → LockWorld → LockWorld
unfolding without
release fd id v = record v { trace = closed fd ∷ v.trace; active = without id v.active }

released : ℕ → ℕ → Outcome (Unit {0}) × LockWorld → Outcome (Unit {0}) × LockWorld
unfolding release
released fd id (r, v) = (r, release fd id v)

-- The world in which run calls its function, whose frame is the one that is new.
unfoldable pub entering : LockWorld → LockWorld
entering w = record w { next = suc w.next; active = w.next ∷ w.active }

-- The part of run behind the acquisition; its deferred calls run on a panic, too.
unfoldable pub scoped : List Frame → Text → Work → ℕ → Exec LockWorld (Unit {0})
unfolding released entering
scoped frames path fn fd w =
    released fd w.next (fn (record { path = path; id = w.next } ∷ frames) fd (entering w))

unfoldable pub is_lock_timeout : Option Done → Bool
is_lock_timeout none = false
is_lock_timeout (some by_cancel) = false
is_lock_timeout (some by_parent_deadline) = false
is_lock_timeout (some by_lock_timeout) = true

module _ (env : LockEnv) where
  -- run
  unfoldable pub run : ℕ → Ctx → List Frame → Text → Work → Exec LockWorld (Unit {0})
  unfolding holds acquire_writer scoped
  run fuel ctx frames path fn w =
      (if holds frames path w
          then panics "lock.Run re-entered"
          else acquire_writer env fuel ctx >>= λ fd. scoped frames path fn fd)
        w

  translate : Text → ℕ → ℕ → Outcome (Unit {0}) × LockWorld → Outcome (Unit {0}) × LockWorld
  unfolding has is_deadline_exceeded is_lock_timeout
  translate path timeout variable (ok _, v) = (ok tt, v)
  translate path timeout variable (panic m, v) = (panic m, v)
  translate path timeout variable (err e, v) =
      if not (has v.acquired variable)
        && ltb 0 timeout
        && is_deadline_exceeded e
        && is_lock_timeout (env.cause v)
      then (err (timeout_error path timeout), v)
      else (err e, v)

  -- RunWithTimeout, with the timeout in milliseconds; runWithTiming only adds to the log.
  unfoldable pub run_with_timeout : ℕ → List Frame → Text → ℕ → Work → Exec LockWorld (Unit {0})
  unfolding run translate
  run_with_timeout fuel frames path timeout fn w =
      let variable = w.next in
      translate path timeout variable (
        run fuel (if ltb 0 timeout then env.bounded else env.caller) frames path
          (λ fs fd v. fn fs fd (record v { acquired = variable ∷ v.acquired }))
          (record w { next = suc variable }))
