-- ===== src/Rebuild/Empty/Keeps.antt =====
-- removeEmptyDispatcher (manager/executor_dispatcher.go) pins nothing.
use go_bpfman.Prelude.{◌==◌, ℕ, [], Option, none, some}
use go_bpfman.Errors.{Err, errors_join}
use go_bpfman.Exec.{Outcome, ok, err, panic, pure, caught}
use go_bpfman.Platform.{DispatcherSnapshot}
use go_bpfman.World.{
  Log, Env, detach_link, detach_tc_filter, remove_pin, remove_rev_dir, delete_snapshot,
}
use go_bpfman.World.Triples.{Post, Post_bind, Post_if, Post_wrapped, invoke_quiet}
use go_bpfman.Rebuild.Cleanup.{logged_quiet}
use go_bpfman.Rebuild.Keeps.{Clean}
use go_bpfman.Rebuild.Empty.{
  returned, delete_errors, is_tc_dispatcher_type, remove_recorded_filter,
  detach_tc_dispatcher_filter, detach_xdp_outer_link, detach_kernel, remove_dispatcher_prog_pin,
  remove_dispatcher_revision_dir, delete_dispatcher_snapshot, remove_empty_dispatcher,
}

module _ (env : Env) (start : Log) where
  remove_recorded_filter-Clean :
      (snap : DispatcherSnapshot) (handle : Option ℕ) (log : Log)
      → Clean start log
      → Post (Clean start) (λ _. Clean start) (remove_recorded_filter env snap handle log)
  unfolding remove_recorded_filter
  remove_recorded_filter-Clean snap none log w = w
  remove_recorded_filter-Clean snap (some handle) log w =
      Post_if (Clean start) (λ _. Clean start) (handle == 0) (pure tt) _ log w
        (invoke_quiet env start [] (detach_tc_filter _ _ _ _ _ _) (λ _. tt) log (λ p h. h) w)

  detach_kernel-Clean :
      (snap : DispatcherSnapshot) (log : Log)
      → Clean start log
      → Post (Clean start) (λ _. Clean start) (detach_kernel env snap log)
  unfolding detach_kernel detach_tc_dispatcher_filter detach_xdp_outer_link
  detach_kernel-Clean snap log w =
      Post_if (Clean start) (λ _. Clean start) (is_tc_dispatcher_type snap.key.typ) _ _ log
        (Post_wrapped (Clean start) (λ _. Clean start) "detach TC dispatcher filter"
          (detach_tc_dispatcher_filter env snap log)
          (Post_bind (Clean start) (λ _. Clean start) (λ _. Clean start) _ _
            (remove_recorded_filter-Clean snap snap.runtime.filter_handle log w) (λ _ l v. v)))
        (Post_wrapped (Clean start) (λ _. Clean start) "detach XDP outer link"
          (detach_xdp_outer_link env snap.key log)
          (invoke_quiet env start [] (detach_link _) (λ _. tt) log (λ p h. h) w))

  caught-Clean :
      (r : Outcome (Unit {0}) × Log)
      → Post (Clean start) (λ _. Clean start) r
      → Post (Clean start) (λ _. Clean start) (caught r)
  caught-Clean (ok a, l) h = h
  caught-Clean (err e, l) h = h
  caught-Clean (panic m, l) h = tt

  returned-Clean :
      (o : Option Err) (l : Log)
      → Clean start l
      → Post (Clean start) (λ _. Clean start) (returned o l)
  returned-Clean none l w = w
  returned-Clean (some e) l w = w

  pub remove_empty_dispatcher-Clean :
      (snap : DispatcherSnapshot) (log : Log)
      → Clean start log
      → Post (Clean start) (λ _. Clean start) (remove_empty_dispatcher env snap log)
  unfolding remove_empty_dispatcher remove_dispatcher_prog_pin remove_dispatcher_revision_dir
      delete_dispatcher_snapshot
  remove_empty_dispatcher-Clean snap log w =
      Post_bind (Clean start) (λ _. Clean start) (λ _. Clean start) _ _
        (detach_kernel-Clean snap log w)
        (λ _ l0 w0.
          Post_bind (Clean start) (λ _. Clean start) (λ _. Clean start) _ _
            (logged_quiet env start (Clean start) (remove_pin _) (λ _. tt) [] l0 (λ p h. h) w0)
            (λ _ l1 w1.
              Post_bind (Clean start) (λ _. Clean start) (λ _. Clean start) _ _
                (logged_quiet env start (Clean start) (remove_rev_dir _) (λ _. tt) [] l1 (λ p h. h)
                  w1)
                (λ _ l2 w2.
                  Post_bind (Clean start) (λ _. Clean start) (λ _. Clean start) _ _
                    (caught-Clean _ (
                      invoke_quiet env start [] (delete_snapshot snap.key) (λ _. tt) l2 (λ p h. h)
                        w2))
                    (λ failure l3 w3. returned-Clean (errors_join (delete_errors failure)) l3 w3))))
