-- ===== src/Manager/Transaction.antt =====
-- The transactions of the store (platform/store/sqlite/sqlite.go): a callback runs between the
-- begin and the commit, again from the start where the database was busy.
use go_bpfman.Prelude.{ℕ, List, [], ◌∷◌, if◌then◌else◌}
use go_bpfman.Exec.{Exec, pure, fail, ◌>>=◌, ◌>>◌, wrapping, on_error}
use go_bpfman.Manager.World.{
  World, ManagerEnv, invoke_unit, begin_transaction, commit, rollback, wait_busy,
}

module _ (env : ManagerEnv) {A : Type 0} where
  -- `defer tx.Rollback()`: it is called on every way out, and its error is ignored.
  unfoldable pub rolled_back : Exec World A → Exec World A
  rolled_back m w = let (r, v) = m w in let (_, u) = invoke_unit env rollback v in (r, u)

  -- runTransactionAttempt
  unfoldable pub run_transaction_attempt : Exec World A → Exec World A
  unfolding rolled_back
  run_transaction_attempt fn =
      wrapping "failed to begin transaction" (invoke_unit env begin_transaction)
      >> rolled_back (fn >>= λ a. invoke_unit env commit >> pure a)

  -- runInTx, outside any transaction, by the pauses that are left.
  unfoldable pub run_in_transaction : List ℕ → Exec World A → Exec World A
  unfolding run_transaction_attempt
  run_in_transaction [] fn = run_transaction_attempt fn
  run_in_transaction (backoff ∷ backoffs) fn =
      let again = run_in_transaction backoffs fn in
      on_error (run_transaction_attempt fn)
        (λ e. if env.is_busy e then invoke_unit env (wait_busy backoff) >> again else fail e) pure
