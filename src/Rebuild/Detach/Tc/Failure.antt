-- ===== src/Rebuild/Detach/Tc/Failure.antt =====
-- rebuildTCForDetach (manager/executor_dispatcher.go): what a failure leaves pinned.
use go_bpfman.Prelude.{some, ℕ, Text, List, [], ◌∷◌}
use go_bpfman.Errors.{wrap}
use go_bpfman.Exec.{pure}
use go_bpfman.Platform.{DispatcherSnapshot, DispatcherSnapshotSpec}
use go_bpfman.Slots.{RebuildSlot}
use go_bpfman.Dispatcher.Config.{tc_config_for}
use go_bpfman.Layout.{dispatcher_prog_path}
use go_bpfman.World.{
  load_tc, attach_tc, create_tc_filter, detach_tc_filter, TcFilter, replace_snapshot, Log, Env,
}
use go_bpfman.World.Pins.{Within}
use go_bpfman.World.Triples.{
  Post_if, Post, Post_bind, Post_on_error, Post_wrapped, invoke_quiet, invoke_pin,
}
use go_bpfman.Rebuild.{AttachedExt}
use go_bpfman.Rebuild.Cleanup.{logged_quiet, attach_slots-Within, dispatcher_members-Post}
use go_bpfman.Rebuild.Keeps.{
  Clean, held, Loaded, verify_extensions-Within, remove_old_any, lift-Post,
}
use go_bpfman.Rebuild.Filter.{old_filter, has_old_filter}
use go_bpfman.Rebuild.Detach.Steps.{
  cleanup_new_revision, cleanup_new_revision-Clean, undo_revision-Clean,
}
use go_bpfman.Rebuild.Detach.Tc.{
  swap, detach_filter, undo_swap, new_snapshot, persist, rebuild_tc_for_detach,
}

module _ (env : Env) (snap : DispatcherSnapshot) (revision : ℕ) (start : Log) where
  abbrev prog : Text
  prog = dispatcher_prog_path env.base snap.key revision

  abbrev After : List AttachedExt → Log → Type 0
  After attached = Within start (held env start snap.key revision attached)

  detach_filter-Within :
      (priority handle : ℕ) (ps : List Text) (log : Log)
      → Within start ps log
      → Post
          (Clean start)
          (λ _. Within start ps)
          (detach_filter env snap revision priority handle log)
  unfolding detach_filter
  detach_filter-Within priority handle ps log w =
      logged_quiet env start (Clean start) (detach_tc_filter _ _ _ _ _ _) (λ _. tt) ps log
        (λ x h. h) w

  swap-Within :
      (attached : List AttachedExt) (log : Log)
      → Loaded env start snap.key revision attached log
      → Post (Clean start) (λ _. After attached) (swap env snap revision prog attached log)
  unfolding swap
  swap-Within attached log (pinned, w) =
      Post_on_error (After attached) (Clean start) (λ _. After attached) (λ _. After attached) _ _ _
        (invoke_quiet env start _ (create_tc_filter _ _ _ _ _ _) (λ l. env.filter_of l prog) log
          (λ x e. e) w)
        (λ e l v.
          undo_revision-Clean env start snap.key revision _ attached
            (wrap "create TC filter for detach rebuild" e) l (pinned, v))
        (λ filter l v.
          let old = old_filter (some snap) in
          Post_bind (Clean start) (λ _. After attached) (λ _. After attached) _ _
            (Post_if (Clean start) (λ _. After attached) (has_old_filter (some snap))
              (detach_filter env snap revision old.priority old.handle) (pure tt) l
              (detach_filter-Within old.priority old.handle _ l v) v)
            (λ _ k u. u))

  undo_swap-Within :
      (filter : TcFilter) (ps : List Text) (log : Log)
      → Within start ps log
      → Post (Clean start) (λ _. Within start ps) (undo_swap env snap revision filter log)
  unfolding undo_swap
  undo_swap-Within filter ps log w =
      Post_bind (Clean start) (λ _. Within start ps) (λ _. Within start ps) _ _
        (detach_filter-Within filter.priority filter.handle ps log w)
        (λ _ l v.
          Post_if (Clean start) (λ _. Within start ps) (has_old_filter (some snap)) _ _ l
            (logged_quiet env start (Clean start) (create_tc_filter _ _ _ _ _ _) _ ps l (λ x h. h)
              v)
            v)

  persist-Within :
      (filter : TcFilter) (attached : List AttachedExt) (spec : DispatcherSnapshotSpec) (log : Log)
      → Loaded env start snap.key revision attached log
      → Post
          (Clean start)
          (λ _. After attached)
          (persist env snap revision filter attached spec log)
  unfolding persist
  persist-Within filter attached spec log (pinned, w) =
      Post_on_error (After attached) (Clean start) (λ _. After attached) (λ _. After attached) _ _ _
        (invoke_quiet env start _ (replace_snapshot spec) (λ _. tt) log (λ x e. e) w)
        (λ e l v.
          Post_bind (Clean start) (λ _. After attached) (λ _. After attached) _ _
            (undo_swap-Within filter _ l v)
            (λ _ k u. undo_revision-Clean env start snap.key revision _ attached e k (pinned, u)))
        (λ _ l v. v)

  -- With the program path of the snapshot's own key, an error leaves no new pin.
  pub rebuild_tc_for_detach-Clean :
      (slots : List RebuildSlot) (log : Log)
      → Clean start log
      → Post (Clean start) (λ _ _. Unit) (rebuild_tc_for_detach env snap revision slots prog log)
  unfolding rebuild_tc_for_detach
  rebuild_tc_for_detach-Clean slots log w =
      Post_bind (Clean start) (λ _. Clean start) (λ _ _. Unit) _ _
        (Post_wrapped (Clean start) (λ _. Clean start)
          "create TC dispatcher config for detach rebuild" _
          (lift-Post (Clean start) (tc_config_for slots) log w))
        (λ config l0 w0.
          Post_bind (Clean start) (λ _. Within start (prog ∷ [])) (λ _ _. Unit) _ _
            (Post_wrapped (Clean start) (λ _. Within start (prog ∷ []))
              "load TC dispatcher for detach rebuild" _
              (invoke_pin env start [] (load_tc config prog) (λ l. env.program_id_of l prog) l0 prog
                (λ x e. e) w0))
            (λ id l1 w1.
              Post_bind (Clean start) (Loaded env start snap.key revision) (λ _ _. Unit) _ _
                (attach_slots-Within env start attach_tc (λ _ x e. e) snap.key revision prog
                  "re-attach TC extension" (cleanup_new_revision env snap.key revision)
                  (cleanup_new_revision-Clean env start snap.key revision) 0 [] slots l1 (tt, w1))
                (λ attached l2 w2.
                  Post_bind (Clean start) (λ _. After attached) (λ _ _. Unit) _ _
                    (verify_extensions-Within env start _ attached l2 w2.1)
                    (λ _ l3 w3.
                      Post_bind (Clean start) (λ _. After attached) (λ _ _. Unit) _ _
                        (swap-Within attached l3 (w2.0, w3))
                        (λ filter l4 w4.
                          Post_bind (Clean start) (λ _. After attached) (λ _ _. Unit) _ _
                            (dispatcher_members-Post (Clean start) (After attached) slots attached
                              l4 w4)
                            (λ specs l5 w5.
                              Post_bind (Clean start) (λ _. After attached) (λ _ _. Unit) _ _
                                (persist-Within filter attached
                                  (new_snapshot env snap revision filter specs) l5 (w2.0, w5))
                                (λ _ l6 _. remove_old_any env start snap.key (some snap) l6)))))))
