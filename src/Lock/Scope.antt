-- ===== src/Lock/Scope.antt =====
-- The scope of a run: its function runs under the lock, and every way out closes the lock's file.
use mathlib.Core.Option.{some-injective}
use go_bpfman.Prelude.{
  ℕ, zero, suc, ◌<◌, ◌≡◌, refl, ap, ◌⊎◌, inl, inr, Text, false, List, [], ◌∷◌, Option, none, some,
  All, arith,
}
use go_bpfman.Errors.{Err, wrap}
use go_bpfman.Exec.{Outcome, ok, err, panic}
use go_bpfman.Lock.Acquire.{
  Misses, miss, after, settled, opening, open_lock-ok, acquire_from-settled,
}
use go_bpfman.Lock.{
  LockWorld, LockEnv, Ctx, Frame, Work, Trace, Attempt, Done, free, would_block, failed, opened,
  missed, waited, locked, closed, note, has, without, holds, next_backoff, acquire_from, open_lock,
  acquire_writer, release, entering, scoped, run, released,
}

-- The descriptors that are open.
unfoldable pub open_fds : Trace → List ℕ
unfolding without
open_fds [] = []
open_fds (opened fd ∷ t) = fd ∷ open_fds t
open_fds (missed _ ∷ t) = open_fds t
open_fds (waited _ _ ∷ t) = open_fds t
open_fds (locked _ ∷ t) = open_fds t
open_fds (closed fd ∷ t) = without fd (open_fds t)

-- The descriptors that hold the lock.
unfoldable pub holders : Trace → List ℕ
unfolding without
holders [] = []
holders (opened _ ∷ t) = holders t
holders (missed _ ∷ t) = holders t
holders (waited _ _ ∷ t) = holders t
holders (locked fd ∷ t) = fd ∷ holders t
holders (closed fd ∷ t) = without fd (holders t)

-- Names in use are below the next one.
pub record IsFresh (w : LockWorld) : Type 0 where
  pub fds : All (λ fd. fd < w.next) (open_fds w.trace)
  pub locks : All (λ fd. fd < w.next) (holders w.trace)
  pub frames : All (λ id. id < w.next) w.active

without-fresh : (a : ℕ) (xs : List ℕ) → All (λ x. x < a) xs → without a xs ≡ xs
unfolding without
without-fresh a [] h = refl
without-fresh a (x ∷ xs) (h, hs) = rw (without-fresh a xs hs) (ground arith)

without-head : (a : ℕ) (xs : List ℕ) → without a (a ∷ xs) ≡ without a xs
unfolding without
without-head a xs = ground arith

pub has-without : (a : ℕ) (xs : List ℕ) → has (without a xs) a ≡ false
unfolding has without
has-without a [] = refl
has-without a (x ∷ xs) = ground (arith, has-without a xs)

-- What an acquisition leaves where it fails, and where it succeeds.
module _ (w : LockWorld) where
  pub record IsClean (v : LockWorld) : Type 0 where
    pub fds : open_fds v.trace ≡ open_fds w.trace
    pub locks : holders v.trace ≡ holders w.trace
    pub frames : v.active ≡ w.active

  pub record IsHeld (fd : ℕ) (v : LockWorld) : Type 0 where
    pub fds : open_fds v.trace ≡ fd ∷ open_fds w.trace
    pub locks : holders v.trace ≡ fd ∷ holders w.trace
    pub frames : v.active ≡ w.active

  -- The lock file is open, and not locked.
  record IsOpened (fd : ℕ) (v : LockWorld) : Type 0 where
    fds : open_fds v.trace ≡ fd ∷ open_fds w.trace
    locks : holders v.trace ≡ holders w.trace
    frames : v.active ≡ w.active

  module _ (fresh : IsFresh w) where
    closed-IsClean : (v : LockWorld) → IsOpened w.next v → IsClean (note (closed w.next) v)
    unfolding open_fds holders without
    closed-IsClean v o = record {
      fds =
          rw (o.fds, without-head w.next (open_fds w.trace))
            (without-fresh w.next (open_fds w.trace) fresh.fds);
      locks = rw o.locks (without-fresh w.next (holders w.trace) fresh.locks);
      frames = o.frames;
    }

  -- How an acquisition that ends leaves the world.
  abbrev Acquired : Outcome (Unit {0}) × LockWorld → Type 0
  Acquired (ok _, v) = IsHeld w.next v
  Acquired (err _, v) = IsClean v
  Acquired (panic _, v) = ⊥

  module _ (env : LockEnv) (ctx : Ctx) (fresh : IsFresh w) where
    after-IsOpened :
        (n backoff : ℕ) (v : LockWorld)
        → IsOpened w.next v
        → IsOpened w.next (after w.next n backoff v)
    unfolding after open_fds holders
    after-IsOpened zero backoff v o = o
    after-IsOpened (suc n) backoff v o =
        after-IsOpened n (next_backoff backoff) (miss w.next backoff v)
          (record { fds = o.fds; locks = o.locks; frames = o.frames })

    settled-Acquired :
        (v : LockWorld) (r : Outcome (Unit {0}) × LockWorld)
        → IsOpened w.next v
        → settled w.next env ctx v ≡ some r
        → Acquired r
    unfolding settled open_fds holders
    settled-Acquired v r o h =
        decided (env.flock v w.next) (ctx (note (missed w.next) v)) refl refl h
      where
        held : IsHeld w.next (note (locked w.next) v)
        held = record { fds = o.fds; locks = ap (λ l. w.next ∷ l) o.locks; frames = o.frames }

        missed_too : IsOpened w.next (note (missed w.next) v)
        missed_too = record { fds = o.fds; locks = o.locks; frames = o.frames }

        decided :
            (a : Attempt) (d : Option Done)
            → env.flock v w.next ≡ a
            → ctx (note (missed w.next) v) ≡ d
            → settled w.next env ctx v ≡ some r
            → Acquired r
        decided free d p q h = rw (← some-injective _ _ (rw (settled, p) at h)) held
        decided (failed e) d p q h =
            rw (← some-injective _ _ (rw (settled, p) at h)) (closed-IsClean fresh v o)
        decided would_block (some x) p q h =
            rw (← some-injective _ _ (rw (settled, p, q) at h))
              (closed-IsClean fresh (note (missed w.next) v) missed_too)
        decided would_block none p q h = ground arith

-- Nothing of a run is left: its descriptor is closed, and its frame is inactive.
pub record IsReleased (fd id : ℕ) (v : LockWorld) : Type 0 where
  pub fds : has (open_fds v.trace) fd ≡ false
  pub locks : has (holders v.trace) fd ≡ false
  pub frames : has v.active id ≡ false

release-IsReleased : (fd id : ℕ) (v : LockWorld) → IsReleased fd id (release fd id v)
unfolding release open_fds holders
release-IsReleased fd id v = record {
  fds = has-without fd (open_fds v.trace);
  locks = has-without fd (holders v.trace);
  frames = has-without id v.active;
}

module _ (env : LockEnv) (fuel : ℕ) (ctx : Ctx) (frames : List Frame) (path : Text) (fn : Work)
    (w : LockWorld) where
  -- The function was not called, and the run returned an error.
  abbrev pub NotEntered : Type 0
  NotEntered =
      (e : Err) × (v : LockWorld) × (run env fuel ctx frames path fn w ≡ (err e, v)) × IsClean w v

  -- The function was called under the lock, and its outcome is that of the run.
  abbrev pub Entered : Type 0
  Entered =
      (v : LockWorld) × IsHeld w w.next v
      × (let out = fn (record { path = path; id = v.next } ∷ frames) w.next (entering v) in
          (run env fuel ctx frames path fn w ≡ (out.0, release w.next v.next out.1))
          × IsReleased w.next v.next (release w.next v.next out.1))

  opening-IsOpened : IsOpened w w.next (opening env w)
  unfolding open_fds holders
  opening-IsOpened = record { fds = refl; locks = refl; frames = refl }

  acquired :
      (o : Outcome (Unit {0}) × LockWorld)
      → Acquired w o
      → holds frames path w ≡ false
      → open_lock env w ≡ (ok w.next, opening env w)
      → acquire_from env fuel ctx w.next 1 (opening env w) ≡ o
      → NotEntered ⊎ Entered
  unfolding run acquire_writer scoped released
  acquired (ok u, v) h unheld op acq =
      inr (v, h, (rw (unheld, op, acq) refl, release-IsReleased _ _ _))
  acquired (err e, v) h unheld op acq = inl (e, v, rw (unheld, op, acq) refl, h)
  acquired (panic m, v) h unheld op acq = absurd h

-- Where the context does not hold the path already, and some round of the acquisition decides it, a
-- run ends in one of two ways. Either it returns an error without calling its function, and leaves
-- the open descriptors, the locks and the active frames as they were; or it calls the function
-- with a new descriptor that holds the lock, returns the function's own outcome, and
-- afterwards the descriptor is closed, holds no lock, and the frame is inactive. The second holds
-- for every function, one that panics included.
pub run-Scoped :
    (env : LockEnv) (ctx : Ctx) (frames : List Frame) (path : Text) (fn : Work) (w : LockWorld)
    → IsFresh w
    → holds frames path w ≡ false
    → (n fuel : ℕ) (r : Outcome (Unit {0}) × LockWorld) → Misses w.next env ctx n 1 (opening env w)
    → settled w.next env ctx (after w.next n 1 (opening env w)) ≡ some r
    → n < fuel
    → NotEntered env fuel ctx frames path fn w ⊎ Entered env fuel ctx frames path fn w
unfolding run acquire_writer open_lock
run-Scoped env ctx frames path fn w fresh unheld n fuel r m h k =
    go (env.mkdir w) (env.open_file w) refl refl
  where
    go :
        (a b : Option Err)
        → env.mkdir w ≡ a
        → env.open_file w ≡ b
        → NotEntered env fuel ctx frames path fn w ⊎ Entered env fuel ctx frames path fn w
    go (some e) b p q = inl (
      wrap "ensure lock dir" e,
      w,
      ground arith,
      record { fds = refl; locks = refl; frames = refl },
    )
    go none (some e) p q = inl (
      wrap "open lock file" e,
      w,
      ground arith,
      record { fds = refl; locks = refl; frames = refl },
    )
    go none none p q =
        acquired env fuel ctx frames path fn w r
          (settled-Acquired w env ctx fresh _ r
            (after-IsOpened w env ctx fresh n 1 (opening env w)
              (opening-IsOpened env fuel ctx frames path fn w))
            h)
          unheld (open_lock-ok env w p q)
          (acquire_from-settled w.next env ctx n fuel 1 (opening env w) r m h k)
