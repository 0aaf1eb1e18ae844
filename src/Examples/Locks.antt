-- ===== src/Examples/Locks.antt =====
-- The writer lock at a lock that another process holds for two rounds.
use go_bpfman.Prelude.{
  ℕ, suc, ◌≡◌, refl, ◌⊎◌, Text, codes, [], ◌∷◌, none, some, ltb, if◌then◌else◌, arith,
}
use go_bpfman.Errors.{deadline_exceeded, timeout_error}
use go_bpfman.Exec.{ok, err}
use go_bpfman.Lock.{
  LockWorld, LockEnv, Work, Trace, would_block, free, opened, missed, waited, locked, closed, note,
  by_lock_timeout, scoped, acquire_writer, run_with_timeout, holds,
}
use go_bpfman.Lock.Acquire.{after, opening, settled, acquire_writer-acquires}
use go_bpfman.Lock.Waits.{waits, first_waits, acquire_writer-first_waits}
use go_bpfman.Lock.Reentry.{Nested, after_runs}
use go_bpfman.Lock.Scope.{open_fds, holders, NotEntered, Entered, run-Scoped}
use go_bpfman.Lock.Timeout.{
  marking, declaring, KeepsVariables, run_with_timeout-acquires, run_with_timeout-expires,
}

misses : Trace → ℕ
misses [] = 0
misses (missed _ ∷ t) = suc (misses t)
misses (opened _ ∷ t) = misses t
misses (waited _ _ ∷ t) = misses t
misses (locked _ ∷ t) = misses t
misses (closed _ ∷ t) = misses t

abbrev env : LockEnv
unfolding misses
env = record {
  mkdir = λ _. none;
  open_file = λ _. none;
  flock = λ w _. if ltb (misses w.trace) 2 then would_block else free;
  caller = λ _. none;
  bounded = λ _. none;
  cause = λ _. none;
}

-- Here the timeout expires in the second wait.
abbrev expiring : LockEnv
unfolding misses
expiring = record {
  mkdir = λ _. none;
  open_file = λ _. none;
  flock = λ _ _. would_block;
  caller = λ _. none;
  bounded = λ w. if ltb (misses w.trace) 2 then none else some by_lock_timeout;
  cause = λ _. some by_lock_timeout;
}

abbrev path : Text
path = codes "/run/bpfman/.lock"

abbrev now : LockWorld
now = record { trace = []; next = 0; active = []; acquired = [] }

-- A slow function, whose own deadline passes.
abbrev fn : Work
fn _ _ v = (err deadline_exceeded, v)

acquire_writer-acquires_example :
    acquire_writer env 3 env.caller now ≡ (ok 0, note (locked 0) (after 0 2 1 (opening env now)))
unfolding misses after
acquire_writer-acquires_example =
    acquire_writer-acquires env env.caller 2 3 now refl refl (refl, refl, (refl, refl, tt)) refl
      (omega arith)

run-Scoped_example :
    NotEntered env 3 env.caller [] path fn now ⊎ Entered env 3 env.caller [] path fn now
unfolding misses settled after open_fds holders holds
run-Scoped_example =
    run-Scoped env env.caller [] path fn now (record { fds = tt; locks = tt; frames = tt }) refl 2 3
      _ (refl, refl, (refl, refl, tt)) refl (omega arith)

keeps : KeepsVariables fn
keeps fs fd a v h = h

run_with_timeout-acquires_example :
    run_with_timeout env 3 [] path 100 fn now
    ≡ scoped [] path (marking 0 fn) 1 (note (locked 1) (after 1 2 1 (opening env (declaring now))))
unfolding misses holds after
run_with_timeout-acquires_example =
    run_with_timeout-acquires env [] path 100 fn now keeps (omega arith) refl 2 3 refl refl
      (refl, refl, (refl, refl, tt)) refl (omega arith)

run_with_timeout-expires_example : run_with_timeout expiring 2 [] path 100 fn now ≡ (
  err (timeout_error path 100),
  note (closed 1) (note (missed 1) (after 1 1 1 (opening expiring (declaring now)))),
)
unfolding misses holds after
run_with_timeout-expires_example =
    run_with_timeout-expires expiring [] path 100 fn now by_lock_timeout (omega arith) refl refl 1 2
      refl refl (refl, refl, tt) refl refl refl (omega arith)

-- The function's error is no timeout, and the file is closed behind it.
trace :
    (run_with_timeout env 3 [] path 100 fn now).1.trace
    ≡ closed 1 ∷ locked 1 ∷ waited 1 2 ∷ missed 1 ∷ waited 1 1 ∷ missed 1 ∷ opened 1 ∷ []
unfolding run_with_timeout misses
trace = refl

-- The longest wait is above the 500 ms of `maxBackoff`.
longest : first_waits 11 ≡ 512 ∷ 512 ∷ 256 ∷ 128 ∷ 64 ∷ 32 ∷ 16 ∷ 8 ∷ 4 ∷ 2 ∷ 1 ∷ []
unfolding first_waits
longest = refl

acquire_writer-first_waits_example :
    waits (acquire_writer env 3 env.caller now).1.trace ≡ 2 ∷ 1 ∷ []
unfolding misses settled after first_waits waits
acquire_writer-first_waits_example =
    acquire_writer-first_waits env env.caller 2 3 now _ refl refl (refl, refl, (refl, refl, tt))
      refl (omega arith)

-- The function has run on another path, where its own function ran on a third one.
abbrev third : Nested
third = record { fuel = 3; ctx = env.caller; frames = []; path = codes "/c"; fn = fn }

abbrev second : Nested
unfolding after_runs
second = record {
  fuel = 3;
  ctx = env.caller;
  frames = record { path = path; id = 0 } ∷ [];
  path = codes "/b";
  fn = λ _ _ w. (ok tt, after_runs env (third ∷ []) w);
}
