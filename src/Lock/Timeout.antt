-- ===== src/Lock/Timeout.antt =====
-- A timeout bounds the acquisition alone, and only its own expiry is reported as a timeout.
use go_bpfman.Prelude.{
  ℕ, zero, suc, ◌<◌, ◌≡◌, refl, Text, true, false, ◌∷◌, List, none, some, lt→ltb, arith,
}
use go_bpfman.Errors.{Err, timeout_error, is_deadline_exceeded}
use go_bpfman.Exec.{Outcome, ok, err, panic}
use go_bpfman.Lock.{
  LockWorld, LockEnv, Ctx, Frame, is_lock_timeout, next_backoff, Work, Done, by_cancel,
  by_parent_deadline, by_lock_timeout, would_block, free, missed, locked, closed, note, has, holds,
  ctx_err, acquire_writer, entering, scoped, run, translate, run_with_timeout,
}
use go_bpfman.Lock.Acquire.{
  Misses, miss, settled-done, after, opening, open_lock-ok, acquire_from-settled,
  acquire_writer-acquires,
}

-- The function, which sets the variable first.
abbrev pub marking : ℕ → Work → Work
marking variable fn fs fd v = fn fs fd (record v { acquired = variable ∷ v.acquired })

-- The world behind the declaration of the variable.
abbrev pub declaring : LockWorld → LockWorld
declaring w = record w { next = suc w.next }

-- A variable that is set stays set.
abbrev pub KeepsVariables : Work → Type 0
KeepsVariables fn =
    (fs : List Frame) (fd a : ℕ) (v : LockWorld)
    → has v.acquired a ≡ true
    → has ((fn fs fd v).1.acquired) a ≡ true

abbrev pub expiry : Text → ℕ → Done → Err
expiry path timeout by_cancel = ctx_err by_cancel
expiry path timeout by_parent_deadline = ctx_err by_parent_deadline
expiry path timeout by_lock_timeout = timeout_error path timeout

module _ (env : LockEnv) (path : Text) (timeout variable : ℕ) where
  translate-acquired :
      (p : Outcome (Unit {0}) × LockWorld)
      → has (p.1.acquired) variable ≡ true
      → translate env path timeout variable p ≡ p
  unfolding translate
  translate-acquired (ok _, v) h = refl
  translate-acquired (err e, v) h = rw h refl
  translate-acquired (panic m, v) h = refl

  -- The variable is not set when the acquisition fails.
  translate-expired :
      (d : Done) (v : LockWorld)
      → 0 < timeout
      → has v.acquired variable ≡ false
      → env.cause v ≡ some d
      → translate env path timeout variable (err (ctx_err d), v) ≡ (err (expiry path timeout d), v)
  unfolding translate ctx_err is_deadline_exceeded is_lock_timeout
  translate-expired by_cancel v t h c = rw (h, lt→ltb 0 timeout t) refl
  translate-expired by_parent_deadline v t h c = rw (h, lt→ltb 0 timeout t, c) refl
  translate-expired by_lock_timeout v t h c = rw (h, lt→ltb 0 timeout t, c) refl

module _ (env : LockEnv) (fuel : ℕ) (ctx : Ctx) (frames : List Frame) (path : Text) (fn : Work)
    (w : LockWorld) where
  run-scoped :
      (fd : ℕ) (v : LockWorld)
      → holds frames path w ≡ false
      → acquire_writer env fuel ctx w ≡ (ok fd, v)
      → run env fuel ctx frames path fn w ≡ scoped frames path fn fd v
  unfolding run
  run-scoped fd v h p = rw (h, p) refl

  run-fails :
      (e : Err) (v : LockWorld)
      → holds frames path w ≡ false
      → acquire_writer env fuel ctx w ≡ (err e, v)
      → run env fuel ctx frames path fn w ≡ (err e, v)
  unfolding run
  run-fails e v h p = rw (h, p) refl

after-acquired : (fd n backoff : ℕ) (w : LockWorld) → (after fd n backoff w).acquired ≡ w.acquired
unfolding after
after-acquired fd zero backoff w = refl
after-acquired fd (suc n) backoff w = after-acquired fd n (next_backoff backoff) (miss fd backoff w)

acquire_writer-expires :
    (env : LockEnv) (ctx : Ctx) (d : Done) (n fuel : ℕ) (w : LockWorld)
    → env.mkdir w ≡ none
    → env.open_file w ≡ none
    → Misses w.next env ctx n 1 (opening env w)
    → let v = after w.next n 1 (opening env w) in
      env.flock v w.next ≡ would_block
      → ctx (note (missed w.next) v) ≡ some d
      → n < fuel
      → acquire_writer env fuel ctx w
        ≡ (err (ctx_err d), note (closed w.next) (note (missed w.next) v))
unfolding acquire_writer
acquire_writer-expires env ctx d n fuel w a b m f g k =
    rw
      (
        open_lock-ok env w a b,
        acquire_from-settled w.next env ctx n fuel 1 (opening env w) _ m
            (settled-done w.next env ctx d _ f g) k,
      )
      refl

scoped-acquired :
    (frames : List Frame) (path : Text) (fn : Work) (fd variable : ℕ) (v : LockWorld)
    → KeepsVariables fn
    → has ((scoped frames path (marking variable fn) fd v).1.acquired) variable ≡ true
unfolding scoped has entering
scoped-acquired frames path fn fd variable v keeps = keeps _ fd variable _ (ground arith)

-- Where the lock is free after n misses within the timeout, RunWithTimeout calls its function under
-- the lock and returns the function's own outcome, whatever error that is and whatever the time that
-- the function took. A function never resets the variables of its callers.
pub run_with_timeout-acquires :
    (env : LockEnv) (frames : List Frame) (path : Text) (timeout : ℕ) (fn : Work) (w : LockWorld)
    → KeepsVariables fn
    → 0 < timeout
    → holds frames path (declaring w) ≡ false
    → (n fuel : ℕ) → env.mkdir (declaring w) ≡ none
    → env.open_file (declaring w) ≡ none
    → Misses (suc w.next) env env.bounded n 1 (opening env (declaring w))
    → env.flock (after (suc w.next) n 1 (opening env (declaring w))) (suc w.next) ≡ free
    → n < fuel
    → run_with_timeout env fuel frames path timeout fn w ≡ (
        let v = note (locked (suc w.next)) (after (suc w.next) n 1 (opening env (declaring w))) in
        scoped frames path (marking w.next fn) (suc w.next) v)
unfolding run_with_timeout
run_with_timeout-acquires env frames path timeout fn w keeps t unheld n fuel a b m f k =
    let v = note (locked (suc w.next)) (after (suc w.next) n 1 (opening env (declaring w))) in
    rw
      (
        lt→ltb 0 timeout t,
        run-scoped env fuel env.bounded frames path (marking w.next fn) (declaring w) (suc w.next) v
            unheld (acquire_writer-acquires env env.bounded n fuel (declaring w) a b m f k),
      )
      (translate-acquired env path timeout w.next _
        (scoped-acquired frames path fn (suc w.next) w.next v keeps))

-- Where the lock is taken until the context of the acquisition is done, RunWithTimeout does not call
-- its function, closes the lock file, and returns a TimeoutError exactly where the timeout itself
-- was what ended the context, and else the error of the caller's context. The cause of a context is
-- what ended it.
pub run_with_timeout-expires :
    (env : LockEnv) (frames : List Frame) (path : Text) (timeout : ℕ) (fn : Work) (w : LockWorld)
    (d : Done)
    → 0 < timeout
    → holds frames path (declaring w) ≡ false
    → has w.acquired w.next ≡ false
    → (n fuel : ℕ) → env.mkdir (declaring w) ≡ none
    → env.open_file (declaring w) ≡ none
    → Misses (suc w.next) env env.bounded n 1 (opening env (declaring w))
    → let v = after (suc w.next) n 1 (opening env (declaring w)) in
      let u = note (closed (suc w.next)) (note (missed (suc w.next)) v) in
      env.flock v (suc w.next) ≡ would_block
      → env.bounded (note (missed (suc w.next)) v) ≡ some d
      → env.cause u ≡ some d
      → n < fuel
      → run_with_timeout env fuel frames path timeout fn w ≡ (err (expiry path timeout d), u)
unfolding run_with_timeout
run_with_timeout-expires env frames path timeout fn w d t unheld unset n fuel a b m f g c k =
    rw
      (
        lt→ltb 0 timeout t,
        run-fails env fuel env.bounded frames path (marking w.next fn) (declaring w) (ctx_err d) _
            unheld (acquire_writer-expires env env.bounded d n fuel (declaring w) a b m f g k),
      )
      (translate-expired env path timeout w.next d _ t
        (rw (after-acquired (suc w.next) n 1 (opening env (declaring w))) unset) c)
