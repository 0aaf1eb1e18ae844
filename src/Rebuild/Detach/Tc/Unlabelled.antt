-- ===== src/Rebuild/Detach/Tc/Unlabelled.antt =====
-- The labels that rebuildTCForDetach (manager/executor_dispatcher.go) stores.
use go_bpfman.Prelude.{◌≡◌, refl, some, ℕ, Text, List, [], All}
use go_bpfman.Errors.{wrap}
use go_bpfman.Exec.{ok, pure}
use go_bpfman.Platform.{DispatcherMemberSpec, DispatcherSnapshot, DispatcherSnapshotSpec}
use go_bpfman.Slots.{RebuildSlot}
use go_bpfman.Dispatcher.Config.{tc_config_for}
use go_bpfman.World.{
  load_tc, attach_tc, create_tc_filter, detach_tc_filter, replace_snapshot, TcFilter, Log, Env,
}
use go_bpfman.World.Adds.{
  Logs, Adds-invoke, Adds-wrapped, Adds-if, Adds-bind, Adds-on_error, Reaches, Reaches-invoke,
  Reaches-after, Reaches-lift, Reaches-bind, Reaches-on_error,
}
use go_bpfman.Rebuild.{AttachedExt, dispatcher_members}
use go_bpfman.Rebuild.Filter.{has_old_filter}
use go_bpfman.Rebuild.Unlabelled.{
  UnlabelledSpec, Unlabelling, Since, logged-Since, lift-Since, undo-Since, undo-Reaches, Stored,
  Stored-done, attach_slots-Since, verify_extensions-Since, remove_old-Reaches,
}
use go_bpfman.Rebuild.Empty.Unlabelled.{remove_revision-Since}
use go_bpfman.Rebuild.Detach.Steps.{cleanup_new_revision}
use go_bpfman.Rebuild.Detach.Tc.{
  detach_filter, swap, undo_swap, new_snapshot, persist, rebuild_tc_for_detach,
}

module _ (env : Env) (snap : DispatcherSnapshot) (revision : ℕ) (start : Log) where
  detach_filter-Since :
      (priority handle : ℕ) (log : Log)
      → Since env start log
      → Logs Unlabelling start (detach_filter env snap revision priority handle log)
  unfolding detach_filter
  detach_filter-Since priority handle log s =
      logged-Since env start (detach_tc_filter _ _ _ _ _ _) (λ _. tt) log tt s

  swap-Since :
      (prog : Text) (attached : List AttachedExt) (log : Log)
      → Since env start log
      → Logs Unlabelling start (swap env snap revision prog attached log)
  unfolding swap
  swap-Since prog attached log s =
      Adds-on_error Unlabelling start _ _ _
        (Adds-invoke Unlabelling start env (create_tc_filter _ _ _ _ _ _)
          (λ l. env.filter_of l prog) log tt (λ _. tt) s)
        (λ e l t.
          undo-Since env start (cleanup_new_revision env snap.key revision)
            (remove_revision-Since env start snap.key revision) _ attached
            (wrap "create TC filter for detach rebuild" e) l t)
        (λ filter l t.
          Adds-bind Unlabelling start _ _
            (Adds-if Unlabelling start (has_old_filter (some snap)) _ (pure tt) l
              (detach_filter-Since _ _ l t) t)
            (λ _ k u. u))

  undo_swap-Since :
      (filter : TcFilter) (log : Log)
      → Since env start log
      → Logs Unlabelling start (undo_swap env snap revision filter log)
  unfolding undo_swap
  undo_swap-Since filter log s =
      Adds-bind Unlabelling start _ _ (detach_filter-Since filter.priority filter.handle log s)
        (λ _ l t.
          Adds-if Unlabelling start (has_old_filter (some snap)) _ (pure tt) l
            (logged-Since env start (create_tc_filter _ _ _ _ _ _) (λ k. env.filter_of k _) l tt t)
            t)

  persist-Reaches :
      (filter : TcFilter) (attached : List AttachedExt) (spec : DispatcherSnapshotSpec) (log : Log)
      → All UnlabelledSpec spec.members
      → Since env start log
      → spec.key ≡ snap.key
      → Reaches Unlabelling start
          (Stored env start snap.key)
          (persist env snap revision filter attached spec log)
  unfolding persist
  persist-Reaches filter attached spec log plain s keyed =
      Reaches-on_error Unlabelling start (Stored env start snap.key) (Stored env start snap.key) _ _
        _
        (Reaches-invoke Unlabelling start (Stored env start snap.key) env (replace_snapshot spec)
          (λ _. tt) log plain (λ _. plain) (spec, keyed, Stored-done env start spec log s) s)
        (λ e l t.
          Reaches-after Unlabelling start (Stored env start snap.key) _ _
            (undo_swap-Since filter l t)
            (λ _ k u.
              undo-Reaches env start (cleanup_new_revision env snap.key revision)
                (remove_revision-Since env start snap.key revision) _ (Stored env start snap.key)
                attached e k u))
        (λ _ l t stored. (t, stored))

  pub rebuild_tc_for_detach-Reaches :
      (slots : List RebuildSlot) (prog : Text) (log : Log)
      → ((attached : List AttachedExt) (specs : List DispatcherMemberSpec)
          → dispatcher_members slots attached ≡ ok specs
          → All UnlabelledSpec specs)
      → Since env start log
      → Reaches Unlabelling start
          (Stored env start snap.key)
          (rebuild_tc_for_detach env snap revision slots prog log)
  unfolding rebuild_tc_for_detach new_snapshot
  rebuild_tc_for_detach-Reaches slots prog log plain s =
      Reaches-after Unlabelling start (Stored env start snap.key) _ _
        (Adds-wrapped Unlabelling start "create TC dispatcher config for detach rebuild" _
          (lift-Since env start (tc_config_for slots) log s))
        (λ config l0 s0.
          Reaches-after Unlabelling start (Stored env start snap.key) _ _
            (Adds-wrapped Unlabelling start "load TC dispatcher for detach rebuild" _ (
              Adds-invoke Unlabelling start env (load_tc config prog)
                (λ l. env.program_id_of l prog) l0 tt (λ _. tt) s0))
            (λ id l1 s1.
              Reaches-after Unlabelling start (Stored env start snap.key) _ _
                (attach_slots-Since env start (cleanup_new_revision env snap.key revision)
                  (remove_revision-Since env start snap.key revision) "re-attach TC extension"
                  attach_tc (λ _. tt) snap.key revision prog 0 [] slots l1 s1)
                (λ attached l2 s2.
                  Reaches-after Unlabelling start (Stored env start snap.key) _ _
                    (verify_extensions-Since env start attached l2 s2)
                    (λ _ l3 s3.
                      Reaches-after Unlabelling start (Stored env start snap.key) _ _
                        (swap-Since prog attached l3 s3)
                        (λ filter l4 s4.
                          Reaches-lift Unlabelling start (Stored env start snap.key)
                            (dispatcher_members slots attached) l4 _ s4
                            (λ specs e.
                              Reaches-bind Unlabelling start (Stored env start snap.key)
                                (Stored env start snap.key) _ _
                                (persist-Reaches filter attached
                                  (new_snapshot env snap revision filter specs) l4
                                  (plain attached specs e) s4 refl)
                                (λ _ l6 s6 stored.
                                  remove_old-Reaches env start snap.key snap.key snap l6 s6
                                    stored)))))))
