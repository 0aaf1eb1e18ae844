-- ===== src/Lock/Acquire.antt =====
-- The acquisition: how it ends at the first round that decides it.
use go_bpfman.Prelude.{ℕ, zero, suc, ◌<◌, ◌≡◌, refl, ◌∷◌, Option, none, some, arith}
use go_bpfman.Errors.{wrap}
use go_bpfman.Exec.{Outcome, ok, err}
use go_bpfman.Lock.{
  LockWorld, LockEnv, Ctx, Attempt, Done, free, would_block, failed, opened, missed, waited, locked,
  closed, note, next_backoff, ctx_err, acquire_from, open_lock, acquire_writer,
}

module _ (fd : ℕ) where
  abbrev pub miss : ℕ → LockWorld → LockWorld
  miss backoff w = note (waited fd backoff) (note (missed fd) w)

  -- The world after so many misses, each with its wait.
  unfoldable pub after : ℕ → ℕ → LockWorld → LockWorld
  unfolding next_backoff
  after zero backoff w = w
  after (suc n) backoff w = after n (next_backoff backoff) (miss backoff w)

  module _ (env : LockEnv) (ctx : Ctx) where
    -- That many rounds find the lock taken, and the context not done.
    abbrev pub Misses : ℕ → ℕ → LockWorld → Type 0
    Misses zero backoff w = Unit
    Misses (suc n) backoff w =
        (env.flock w fd ≡ would_block)
        × (ctx (note (missed fd) w) ≡ none)
        × Misses n (next_backoff backoff) (miss backoff w)

    -- How a round ends the loop, where it does.
    unfoldable pub settled : LockWorld → Option (Outcome (Unit {0}) × LockWorld)
    unfolding ctx_err
    settled w = elim (env.flock w fd) [
      | free ↦ some (ok tt, note (locked fd) w)
      | failed e ↦ some (err (wrap "flock" e), note (closed fd) w)
      | would_block ↦ elim (ctx (note (missed fd) w)) [
        | some d ↦ some (err (ctx_err d), note (closed fd) (note (missed fd) w))
        | none ↦ none
      ]
    ]

    settled-free :
        (w : LockWorld) → env.flock w fd ≡ free → settled w ≡ some (ok tt, note (locked fd) w)
    unfolding settled
    settled-free w f = ground arith

    pub settled-done :
        (d : Done) (w : LockWorld)
        → env.flock w fd ≡ would_block
        → ctx (note (missed fd) w) ≡ some d
        → settled w ≡ some (err (ctx_err d), note (closed fd) (note (missed fd) w))
    unfolding settled
    settled-done d w f g = ground arith

    -- Every fuel beyond the first round that decides the loop gives that round's result.
    pub acquire_from-settled :
        (n fuel backoff : ℕ) (w : LockWorld) (r : Outcome (Unit {0}) × LockWorld)
        → Misses n backoff w
        → settled (after n backoff w) ≡ some r
        → n < fuel
        → acquire_from env fuel ctx fd backoff w ≡ r
    unfolding acquire_from settled after
    acquire_from-settled n zero backoff w r m h k = absurd (omega arith)
    acquire_from-settled (suc n) (suc fuel) backoff w r (p, q, m) h k =
        ground
          (arith, p, q, acquire_from-settled n fuel (next_backoff backoff) (miss backoff w) r m h)
    acquire_from-settled zero (suc fuel) backoff w r m h k =
        decided (env.flock w fd) (ctx (note (missed fd) w)) refl refl h
      where
        decided :
            (a : Attempt) (d : Option Done)
            → env.flock w fd ≡ a
            → ctx (note (missed fd) w) ≡ d
            → settled w ≡ some r
            → acquire_from env (suc fuel) ctx fd backoff w ≡ r
        decided free d p q h = ground arith
        decided (failed e) d p q h = ground arith
        decided would_block (some x) p q h = ground arith
        decided would_block none p q h = ground arith

module _ (env : LockEnv) where
  -- The world behind the opening of the lock file.
  abbrev pub opening : LockWorld → LockWorld
  opening w = record w { trace = opened w.next ∷ w.trace; next = suc w.next }

  pub open_lock-ok :
      (w : LockWorld)
      → env.mkdir w ≡ none
      → env.open_file w ≡ none
      → open_lock env w ≡ (ok w.next, opening w)
  unfolding open_lock
  open_lock-ok w a b = ground arith

-- Where the lock file can be opened, and the lock is taken for n rounds in which the context is not
-- done, and then free, acquireWriter returns the new descriptor with the lock, after exactly the n
-- misses and their waits.
pub acquire_writer-acquires :
    (env : LockEnv) (ctx : Ctx) (n fuel : ℕ) (w : LockWorld)
    → env.mkdir w ≡ none
    → env.open_file w ≡ none
    → Misses w.next env ctx n 1 (opening env w)
    → env.flock (after w.next n 1 (opening env w)) w.next ≡ free
    → n < fuel
    → acquire_writer env fuel ctx w
      ≡ (ok w.next, note (locked w.next) (after w.next n 1 (opening env w)))
unfolding acquire_writer
acquire_writer-acquires env ctx n fuel w a b m f k =
    rw
      (
        open_lock-ok env w a b,
        acquire_from-settled w.next env ctx n fuel 1 (opening env w) _ m
            (settled-free w.next env ctx _ f) k,
      )
      refl
