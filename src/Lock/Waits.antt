-- ===== src/Lock/Waits.antt =====
-- The waits of acquireWriter (lock/lock.go).
use mathlib.Core.Option.{some-injective}
use go_bpfman.Prelude.{
  ℕ, zero, suc, ◌^◌, ◌<◌, ◌≡◌, refl, ap, ◌∙◌, List, [], ◌∷◌, ◌++◌, Option, none, some, ltb,
  if◌then◌else◌, arith,
}
use go_bpfman.Exec.{Outcome, ok, err, panic, proceed, pure}
use go_bpfman.Lock.{
  LockWorld, LockEnv, Ctx, Trace, Attempt, Done, free, would_block, failed, opened, missed, waited,
  locked, closed, note, next_backoff, acquire_writer,
}
use go_bpfman.Lock.Acquire.{
  Misses, miss, after, settled, opening, open_lock-ok, acquire_from-settled,
}

-- The waits of an acquisition, the last one first.
unfoldable pub waits : Trace → List ℕ
waits [] = []
waits (opened _ ∷ t) = waits t
waits (missed _ ∷ t) = waits t
waits (waited _ backoff ∷ t) = backoff ∷ waits t
waits (locked _ ∷ t) = waits t
waits (closed _ ∷ t) = waits t

-- The wait after so many others: it doubles from 1 ms up to 512 ms, where it stays.
abbrev pub wait_after : ℕ → ℕ
wait_after n = if ltb n 9 then 2 ^ n else 512

-- The first `n` waits, the last one first.
unfoldable pub first_waits : ℕ → List ℕ
first_waits zero = []
first_waits (suc n) = wait_after n ∷ first_waits n

-- The backoff after so many misses, from a first one.
backoff_after : ℕ → ℕ → ℕ
backoff_after zero backoff = backoff
backoff_after (suc n) backoff = backoff_after n (next_backoff backoff)

backoff_stays : (n : ℕ) → backoff_after n 512 ≡ 512
unfolding backoff_after next_backoff
backoff_stays zero = refl
backoff_stays (suc n) = backoff_stays n

backoff_after-eq : (n : ℕ) → backoff_after n 1 ≡ wait_after n
unfolding backoff_after next_backoff
backoff_after-eq zero = refl
backoff_after-eq (suc zero) = refl
backoff_after-eq (suc (suc zero)) = refl
backoff_after-eq (suc (suc (suc zero))) = refl
backoff_after-eq (suc (suc (suc (suc zero)))) = refl
backoff_after-eq (suc (suc (suc (suc (suc zero))))) = refl
backoff_after-eq (suc (suc (suc (suc (suc (suc zero)))))) = refl
backoff_after-eq (suc (suc (suc (suc (suc (suc (suc zero))))))) = refl
backoff_after-eq (suc (suc (suc (suc (suc (suc (suc (suc zero)))))))) = refl
backoff_after-eq (suc (suc (suc (suc (suc (suc (suc (suc (suc n))))))))) =
    backoff_stays n ∙ ground arith

module _ (fd : ℕ) where
  -- The misses are counted from the front, the waits are noted at the back.
  after_last :
      (n backoff : ℕ) (w : LockWorld)
      → after fd (suc n) backoff w ≡ miss fd (backoff_after n backoff) (after fd n backoff w)
  unfolding after backoff_after
  after_last zero backoff w = refl
  after_last (suc n) backoff w = after_last n (next_backoff backoff) (miss fd backoff w)

  waits-after :
      (n : ℕ) (w : LockWorld) → waits (after fd n 1 w).trace ≡ first_waits n ++ waits w.trace
  unfolding waits first_waits after
  waits-after zero w = refl
  waits-after (suc n) w =
      rw (after_last n 1 w, backoff_after-eq n) (ap (λ l. wait_after n ∷ l) (waits-after n w))

  -- The round that decides the loop adds no wait.
  waits-settled :
      (env : LockEnv) (ctx : Ctx) (w : LockWorld) (r : Outcome (Unit {0}) × LockWorld)
      → settled fd env ctx w ≡ some r
      → waits r.1.trace ≡ waits w.trace
  unfolding settled waits
  waits-settled env ctx w r h = decided (env.flock w fd) (ctx (note (missed fd) w)) refl refl h
    where
      decided :
          (a : Attempt) (d : Option Done)
          → env.flock w fd ≡ a
          → ctx (note (missed fd) w) ≡ d
          → settled fd env ctx w ≡ some r
          → waits r.1.trace ≡ waits w.trace
      decided free d p q h = rw (← some-injective _ _ (rw (settled, p) at h)) refl
      decided (failed e) d p q h = rw (← some-injective _ _ (rw (settled, p) at h)) refl
      decided would_block (some x) p q h = rw (← some-injective _ _ (rw (settled, p, q) at h)) refl
      decided would_block none p q h = ground arith

-- To return another result touches no file.
proceed-pure : (fd : ℕ) (r : Outcome (Unit {0}) × LockWorld) → (proceed r (λ _. pure fd)).1 ≡ r.1
proceed-pure fd (ok _, w) = refl
proceed-pure fd (err _, w) = refl
proceed-pure fd (panic _, w) = refl

-- Where the lock file can be opened, and the lock is taken for n rounds in which the context is not
-- done, and the next round decides, with the lock, an error of flock or the end of the context,
-- acquireWriter has made exactly n waits: they double from 1 ms up to 512 ms, where they stay.
pub acquire_writer-first_waits :
    (env : LockEnv) (ctx : Ctx) (n fuel : ℕ) (w : LockWorld) (r : Outcome (Unit {0}) × LockWorld)
    → env.mkdir w ≡ none
    → env.open_file w ≡ none
    → Misses w.next env ctx n 1 (opening env w)
    → settled w.next env ctx (after w.next n 1 (opening env w)) ≡ some r
    → n < fuel
    → waits (acquire_writer env fuel ctx w).1.trace ≡ first_waits n ++ waits w.trace
unfolding acquire_writer waits
acquire_writer-first_waits env ctx n fuel w r a b m h k =
    let same = waits-settled w.next env ctx _ r h ∙ waits-after w.next n (opening env w) in
    rw
      (open_lock-ok env w a b, acquire_from-settled w.next env ctx n fuel 1 (opening env w) r m h k)
      (ap (λ (v : LockWorld). waits v.trace) (proceed-pure w.next r) ∙ same)
