-- ===== src/Rebuild/Empty/Unlabelled.antt =====
-- removeEmptyDispatcher (manager/executor_dispatcher.go) stores nothing.
use go_bpfman.Prelude.{◌≡◌, refl, ap, inl, In, ◌∷◌, ◌++◌, ◌==◌, ℕ, Option, none, some}
use go_bpfman.Errors.{Err, errors_join}
use go_bpfman.Exec.{ok, err, pure, logged, attempt, caught, proceed}
use go_bpfman.Platform.{Key, DispatcherSnapshot}
use go_bpfman.Layout.{dispatcher_revision_dir}
use go_bpfman.World.{
  done, failed, invoke, invoke_unit, Log, Env, detach_link, detach_tc_filter, remove_pin,
  remove_rev_dir, delete_snapshot,
}
use go_bpfman.World.Adds.{
  Logs, Reaches, Adds-cons, Adds-invoke, Adds-wrapped, Adds-if, Adds-bind, Reaches-after,
}
use go_bpfman.Rebuild.Unlabelled.{Unlabelling, Since, logged-Since}
use go_bpfman.Rebuild.Empty.{
  returned, delete_errors, is_tc_dispatcher_type, remove_recorded_filter,
  detach_tc_dispatcher_filter, detach_xdp_outer_link, detach_kernel, remove_dispatcher_prog_pin,
  remove_dispatcher_revision_dir, delete_dispatcher_snapshot, remove_empty_dispatcher,
}

module _ (env : Env) (start : Log) where
  pub remove_revision-Since :
      (key : Key) (revision : ℕ) (log : Log)
      → Since env start log
      → Logs Unlabelling start (logged (remove_dispatcher_revision_dir env key revision) log)
  unfolding remove_dispatcher_revision_dir
  remove_revision-Since key revision log s =
      logged-Since env start (remove_rev_dir (dispatcher_revision_dir env.base key revision))
        (λ _. tt) log tt s

  remove_recorded_filter-Since :
      (snap : DispatcherSnapshot) (handle : Option ℕ) (log : Log)
      → Since env start log
      → Logs Unlabelling start (remove_recorded_filter env snap handle log)
  unfolding remove_recorded_filter
  remove_recorded_filter-Since snap none log s = s
  remove_recorded_filter-Since snap (some handle) log s =
      Adds-if Unlabelling start (handle == 0) (pure tt) _ log s (
        Adds-invoke Unlabelling start env (detach_tc_filter _ _ _ _ _ _) (λ _. tt) log tt (λ _. tt)
          s)

  detach_kernel-Since :
      (snap : DispatcherSnapshot) (log : Log)
      → Since env start log
      → Logs Unlabelling start (detach_kernel env snap log)
  unfolding detach_kernel detach_tc_dispatcher_filter detach_xdp_outer_link
  detach_kernel-Since snap log s =
      Adds-if Unlabelling start (is_tc_dispatcher_type snap.key.typ) _ _ log
        (Adds-wrapped Unlabelling start "detach TC dispatcher filter"
          (detach_tc_dispatcher_filter env snap log)
          (Adds-bind Unlabelling start _ _
            (remove_recorded_filter-Since snap snap.runtime.filter_handle log s) (λ _ _ t. t)))
        (Adds-wrapped Unlabelling start "detach XDP outer link"
          (detach_xdp_outer_link env snap.key log)
          (Adds-invoke Unlabelling start env (detach_link _) (λ _. tt) log tt (λ _. tt) s))

  -- The snapshot of that key was deleted since the start.
  abbrev pub Deleted : Key → Log → Type 0
  Deleted key log = (new : Log) × (log ≡ new ++ start) × In (done (delete_snapshot key)) new

  -- The last step returns an error unless the snapshot is deleted.
  delete_last-Reaches :
      (key : Key) (log : Log)
      → Since env start log
      → Reaches Unlabelling start (Deleted key) (
          proceed
            (attempt (invoke_unit env (delete_snapshot key)) log)
            (λ failure. returned (errors_join (delete_errors failure))))
  unfolding invoke errors_join
  delete_last-Reaches key log s = go (env.fails log (delete_snapshot key))
    where
      go :
          (o : Option Err)
          → Reaches Unlabelling start (Deleted key) (
              proceed
                (caught {A = Unit {0}} (elim o [
                  | none ↦ (ok tt, done (delete_snapshot key) ∷ log)
                  | some e ↦ (err e, failed (delete_snapshot key) e ∷ log)
                ]))
                (λ failure. returned (errors_join (delete_errors failure))))
      go none = (
        Adds-cons Unlabelling start (done (delete_snapshot key)) log tt s,
        (done (delete_snapshot key) ∷ s.0, ap (λ l. done (delete_snapshot key) ∷ l) s.1, inl refl),
      )
      go (some e) = Adds-cons Unlabelling start (failed (delete_snapshot key) e) log tt s

  pub remove_empty_dispatcher-Reaches :
      (snap : DispatcherSnapshot) (log : Log)
      → Since env start log
      → Reaches Unlabelling start (Deleted snap.key) (remove_empty_dispatcher env snap log)
  unfolding remove_empty_dispatcher remove_dispatcher_prog_pin delete_dispatcher_snapshot
  remove_empty_dispatcher-Reaches snap log s =
      Reaches-after Unlabelling start (Deleted snap.key) _ _ (detach_kernel-Since snap log s)
        (λ _ l0 s0.
          Reaches-after Unlabelling start (Deleted snap.key) _ _
            (logged-Since env start (remove_pin _) (λ _. tt) l0 tt s0)
            (λ _ l1 s1.
              Reaches-after Unlabelling start (Deleted snap.key) _ _
                (remove_revision-Since snap.key snap.revision l1 s1)
                (λ _ l2 s2. delete_last-Reaches snap.key l2 s2)))
