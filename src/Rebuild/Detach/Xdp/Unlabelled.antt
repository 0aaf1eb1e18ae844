-- ===== src/Rebuild/Detach/Xdp/Unlabelled.antt =====
-- The labels that rebuildXDPForDetach (manager/executor_dispatcher.go) stores.
use go_bpfman.Prelude.{◌≡◌, refl, ℕ, Text, List, [], All}
use go_bpfman.Errors.{wrap}
use go_bpfman.Exec.{ok}
use go_bpfman.Platform.{DispatcherMemberSpec, DispatcherSnapshot, DispatcherSnapshotSpec}
use go_bpfman.Slots.{RebuildSlot}
use go_bpfman.Dispatcher.Config.{xdp_config_for}
use go_bpfman.Layout.{dispatcher_link_path}
use go_bpfman.World.{load_xdp, attach_xdp, update_xdp_link, replace_snapshot, Log, Env}
use go_bpfman.World.Adds.{
  Logs, Adds-invoke, Adds-wrapped, Adds-on_error, Reaches, Reaches-invoke, Reaches-after,
  Reaches-lift, Reaches-bind, Reaches-on_error,
}
use go_bpfman.Rebuild.{AttachedExt, dispatcher_members}
use go_bpfman.Rebuild.Unlabelled.{
  UnlabelledSpec, Unlabelling, Since, logged-Since, lift-Since, undo-Since, undo-Reaches, Stored,
  Stored-done, attach_slots-Since, verify_extensions-Since, remove_old-Reaches,
}
use go_bpfman.Rebuild.Empty.Unlabelled.{remove_revision-Since}
use go_bpfman.Rebuild.Detach.Steps.{cleanup_new_revision}
use go_bpfman.Rebuild.Detach.Xdp.{update, new_snapshot, persist, rebuild_xdp_for_detach}

module _ (env : Env) (snap : DispatcherSnapshot) (revision : ℕ) (start : Log) where
  update-Since :
      (prog : Text) (attached : List AttachedExt) (log : Log)
      → Since env start log
      → Logs Unlabelling start (update env snap revision prog attached log)
  unfolding update
  update-Since prog attached log s =
      Adds-on_error Unlabelling start _ _ _
        (Adds-invoke Unlabelling start env
          (update_xdp_link (dispatcher_link_path env.base snap.key) prog) (λ _. tt) log tt (λ _. tt)
          s)
        (λ e l t.
          undo-Since env start (cleanup_new_revision env snap.key revision)
            (remove_revision-Since env start snap.key revision) _ attached
            (wrap "update XDP dispatcher link" e) l t)
        (λ _ l t. t)

  persist-Reaches :
      (attached : List AttachedExt) (spec : DispatcherSnapshotSpec) (log : Log)
      → All UnlabelledSpec spec.members
      → Since env start log
      → spec.key ≡ snap.key
      → Reaches Unlabelling start
          (Stored env start snap.key)
          (persist env snap revision attached spec log)
  unfolding persist
  persist-Reaches attached spec log plain s keyed =
      Reaches-on_error Unlabelling start (Stored env start snap.key) (Stored env start snap.key) _ _
        _
        (Reaches-invoke Unlabelling start (Stored env start snap.key) env (replace_snapshot spec)
          (λ _. tt) log plain (λ _. plain) (spec, keyed, Stored-done env start spec log s) s)
        (λ e l t.
          Reaches-after Unlabelling start (Stored env start snap.key) _ _
            (logged-Since env start (update_xdp_link _ _) (λ _. tt) l tt t)
            (λ _ k u.
              undo-Reaches env start (cleanup_new_revision env snap.key revision)
                (remove_revision-Since env start snap.key revision) _ (Stored env start snap.key)
                attached e k u))
        (λ _ l t stored. (t, stored))

  pub rebuild_xdp_for_detach-Reaches :
      (slots : List RebuildSlot) (prog : Text) (log : Log)
      → ((attached : List AttachedExt) (specs : List DispatcherMemberSpec)
          → dispatcher_members slots attached ≡ ok specs
          → All UnlabelledSpec specs)
      → Since env start log
      → Reaches Unlabelling start
          (Stored env start snap.key)
          (rebuild_xdp_for_detach env snap revision slots prog log)
  unfolding rebuild_xdp_for_detach new_snapshot
  rebuild_xdp_for_detach-Reaches slots prog log plain s =
      Reaches-after Unlabelling start (Stored env start snap.key) _ _
        (Adds-wrapped Unlabelling start "create XDP dispatcher config for detach rebuild" _
          (lift-Since env start (xdp_config_for slots) log s))
        (λ config l0 s0.
          Reaches-after Unlabelling start (Stored env start snap.key) _ _
            (Adds-wrapped Unlabelling start "load XDP dispatcher for detach rebuild" _ (
              Adds-invoke Unlabelling start env (load_xdp config prog)
                (λ l. env.program_id_of l prog) l0 tt (λ _. tt) s0))
            (λ id l1 s1.
              Reaches-after Unlabelling start (Stored env start snap.key) _ _
                (attach_slots-Since env start (cleanup_new_revision env snap.key revision)
                  (remove_revision-Since env start snap.key revision) "re-attach XDP extension"
                  attach_xdp (λ _. tt) snap.key revision prog 0 [] slots l1 s1)
                (λ attached l2 s2.
                  Reaches-after Unlabelling start (Stored env start snap.key) _ _
                    (verify_extensions-Since env start attached l2 s2)
                    (λ _ l3 s3.
                      Reaches-after Unlabelling start (Stored env start snap.key) _ _
                        (update-Since prog attached l3 s3)
                        (λ _ l4 s4.
                          Reaches-lift Unlabelling start (Stored env start snap.key)
                            (dispatcher_members slots attached) l4 _ s4
                            (λ specs e.
                              Reaches-bind Unlabelling start (Stored env start snap.key)
                                (Stored env start snap.key) _ _
                                (persist-Reaches attached (new_snapshot env snap revision id specs)
                                  l4 (plain attached specs e) s4 refl)
                                (λ _ l6 s6 stored.
                                  remove_old-Reaches env start snap.key snap.key snap l6 s6
                                    stored)))))))
