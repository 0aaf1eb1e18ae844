-- ===== src/Rebuild/Detach/Xdp/Failure.antt =====
-- rebuildXDPForDetach (manager/executor_dispatcher.go): what a failure leaves pinned.
use go_bpfman.Prelude.{some, ℕ, Text, List, [], ◌∷◌}
use go_bpfman.Errors.{wrap}
use go_bpfman.Platform.{DispatcherSnapshot, DispatcherSnapshotSpec}
use go_bpfman.Slots.{RebuildSlot}
use go_bpfman.Dispatcher.Config.{xdp_config_for}
use go_bpfman.Layout.{dispatcher_prog_path, dispatcher_link_path}
use go_bpfman.World.{load_xdp, attach_xdp, update_xdp_link, replace_snapshot, Log, Env}
use go_bpfman.World.Pins.{Within}
use go_bpfman.World.Triples.{Post, Post_bind, Post_on_error, Post_wrapped, invoke_quiet, invoke_pin}
use go_bpfman.Rebuild.{AttachedExt}
use go_bpfman.Rebuild.Cleanup.{logged_quiet, attach_slots-Within, dispatcher_members-Post}
use go_bpfman.Rebuild.Keeps.{
  Clean, held, Loaded, verify_extensions-Within, remove_old_any, lift-Post,
}
use go_bpfman.Rebuild.Detach.Steps.{
  cleanup_new_revision, cleanup_new_revision-Clean, undo_revision-Clean,
}
use go_bpfman.Rebuild.Detach.Xdp.{update, new_snapshot, persist, rebuild_xdp_for_detach}

module _ (env : Env) (snap : DispatcherSnapshot) (revision : ℕ) (start : Log) where
  abbrev prog : Text
  prog = dispatcher_prog_path env.base snap.key revision

  abbrev After : List AttachedExt → Log → Type 0
  After attached = Within start (held env start snap.key revision attached)

  update-Within :
      (attached : List AttachedExt) (log : Log)
      → Loaded env start snap.key revision attached log
      → Post (Clean start) (λ _. After attached) (update env snap revision prog attached log)
  unfolding update
  update-Within attached log (pinned, w) =
      Post_on_error (After attached) (Clean start) (λ _. After attached) (λ _. After attached) _ _ _
        (invoke_quiet env start _ (update_xdp_link (dispatcher_link_path env.base snap.key) prog)
          (λ _. tt) log (λ x e. e) w)
        (λ e l v.
          undo_revision-Clean env start snap.key revision _ attached
            (wrap "update XDP dispatcher link" e) l (pinned, v))
        (λ _ l v. v)

  persist-Within :
      (attached : List AttachedExt) (spec : DispatcherSnapshotSpec) (log : Log)
      → Loaded env start snap.key revision attached log
      → Post (Clean start) (λ _. After attached) (persist env snap revision attached spec log)
  unfolding persist
  persist-Within attached spec log (pinned, w) =
      Post_on_error (After attached) (Clean start) (λ _. After attached) (λ _. After attached) _ _ _
        (invoke_quiet env start _ (replace_snapshot spec) (λ _. tt) log (λ x e. e) w)
        (λ e l v.
          Post_bind (Clean start) (λ _. After attached) (λ _. After attached) _ _
            (logged_quiet env start (Clean start) (update_xdp_link _ _) (λ _. tt) _ l (λ x h. h) v)
            (λ _ k u. undo_revision-Clean env start snap.key revision _ attached e k (pinned, u)))
        (λ _ l v. v)

  -- With the program path of the snapshot's own key, an error leaves no new pin.
  pub rebuild_xdp_for_detach-Clean :
      (slots : List RebuildSlot) (log : Log)
      → Clean start log
      → Post (Clean start) (λ _ _. Unit) (rebuild_xdp_for_detach env snap revision slots prog log)
  unfolding rebuild_xdp_for_detach
  rebuild_xdp_for_detach-Clean slots log w =
      Post_bind (Clean start) (λ _. Clean start) (λ _ _. Unit) _ _
        (Post_wrapped (Clean start) (λ _. Clean start)
          "create XDP dispatcher config for detach rebuild" _
          (lift-Post (Clean start) (xdp_config_for slots) log w))
        (λ config l0 w0.
          Post_bind (Clean start) (λ _. Within start (prog ∷ [])) (λ _ _. Unit) _ _
            (Post_wrapped (Clean start) (λ _. Within start (prog ∷ []))
              "load XDP dispatcher for detach rebuild" _
              (invoke_pin env start [] (load_xdp config prog) (λ l. env.program_id_of l prog) l0
                prog (λ x e. e) w0))
            (λ id l1 w1.
              Post_bind (Clean start) (Loaded env start snap.key revision) (λ _ _. Unit) _ _
                (attach_slots-Within env start attach_xdp (λ _ x e. e) snap.key revision prog
                  "re-attach XDP extension" (cleanup_new_revision env snap.key revision)
                  (cleanup_new_revision-Clean env start snap.key revision) 0 [] slots l1 (tt, w1))
                (λ attached l2 w2.
                  Post_bind (Clean start) (λ _. After attached) (λ _ _. Unit) _ _
                    (verify_extensions-Within env start _ attached l2 w2.1)
                    (λ _ l3 w3.
                      Post_bind (Clean start) (λ _. After attached) (λ _ _. Unit) _ _
                        (update-Within attached l3 (w2.0, w3))
                        (λ _ l4 w4.
                          Post_bind (Clean start) (λ _. After attached) (λ _ _. Unit) _ _
                            (dispatcher_members-Post (Clean start) (After attached) slots attached
                              l4 w4)
                            (λ specs l5 w5.
                              Post_bind (Clean start) (λ _. After attached) (λ _ _. Unit) _ _
                                (persist-Within attached (new_snapshot env snap revision id specs)
                                  l5 (w2.0, w5))
                                (λ _ l6 _. remove_old_any env start snap.key (some snap) l6)))))))
