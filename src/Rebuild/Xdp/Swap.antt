-- ===== src/Rebuild/Xdp/Swap.antt =====
-- rebuildXDPDispatcher (manager/executor_dispatcher.go): what the swap and the store leave pinned.
use go_bpfman.Prelude.{Text, List, ◌∷◌, Option, none, some, All}
use go_bpfman.Errors.{wrap}
use go_bpfman.Exec.{fail, ◌>>◌}
use go_bpfman.Platform.{DispatcherSnapshot, DispatcherSnapshotSpec}
use go_bpfman.Layout.{dispatcher_prog_path, dispatcher_link_path}
use go_bpfman.World.{create_xdp_link, update_xdp_link, detach_link, replace_snapshot, Log, Env}
use go_bpfman.World.Pins.{Within}
use go_bpfman.World.Triples.{Post, Post_bind, Post_on_error, invoke_quiet, invoke_pin}
use go_bpfman.Rebuild.{undo_attach, AttachedExt}
use go_bpfman.Rebuild.Cleanup.{Pinned, logged_release, logged_quiet}
use go_bpfman.Rebuild.Keeps.{Clean, held, Loaded, undo_attach-Clean}
use go_bpfman.Rebuild.Xdp.{XdpRequest, XdpPlan, undo_attach, swap, undo_swap, persist}

module _ (env : Env) (q : XdpRequest) (start : Log) where
  -- The pins after the swap.
  abbrev pub swapped : XdpPlan → List AttachedExt → Option DispatcherSnapshot → List Text
  swapped p attached none =
      dispatcher_link_path env.base p.key ∷ held env start p.key p.revision attached
  swapped p attached (some snap) = held env start p.key p.revision attached

  pub swap-Within :
      (p : XdpPlan) (attached : List AttachedExt) (snap : Option DispatcherSnapshot) (log : Log)
      → Loaded env start p.key p.revision attached log
      → Post
          (Clean start)
          (λ _ l. Within start (swapped p attached snap) l)
          (swap env q p attached snap log)
  unfolding swap
  swap-Within p attached none log (pinned, w) =
      Post_on_error (Within start (held env start p.key p.revision attached)) (Clean start)
        (λ _. Within start (swapped p attached none)) (λ _. Within start (swapped p attached none))
        _ _ _
        (invoke_pin env start (held env start p.key p.revision attached)
          (create_xdp_link (dispatcher_prog_path env.base p.key p.revision) q.ifindex
            (dispatcher_link_path env.base p.key) q.netns_path)
          (λ l. env.xdp_link_id_of l (dispatcher_link_path env.base p.key)) log
          (dispatcher_link_path env.base p.key) (λ x e. e) w)
        (λ e l v.
          undo_attach-Clean env start p.key p.revision _ attached (wrap "create XDP link" e) l
            (pinned, v))
        (λ _ l v. v)
  swap-Within p attached (some snap) log (pinned, w) =
      Post_on_error (Within start (held env start p.key p.revision attached)) (Clean start)
        (λ _. Within start (held env start p.key p.revision attached))
        (λ _. Within start (held env start p.key p.revision attached)) _ _ _
        (invoke_quiet env start (held env start p.key p.revision attached)
          (update_xdp_link (dispatcher_link_path env.base p.key)
            (dispatcher_prog_path env.base p.key p.revision))
          (λ _. tt) log (λ x e. e) w)
        (λ e l v.
          undo_attach-Clean env start p.key p.revision _ attached
            (wrap "update XDP dispatcher link" e) l (pinned, v))
        (λ _ l v. v)

  undo_swap-Within :
      (p : XdpPlan) (attached : List AttachedExt) (snap : Option DispatcherSnapshot) (log : Log)
      → Within start (swapped p attached snap) log
      → Post
          (Clean start)
          (λ _. Within start (held env start p.key p.revision attached))
          (undo_swap env q p snap log)
  unfolding undo_swap
  undo_swap-Within p attached none log w =
      logged_release env start (Clean start) (detach_link (dispatcher_link_path env.base p.key))
        (dispatcher_link_path env.base p.key) (held env start p.key p.revision attached) log
        (λ x h. h) (λ x e. e) w
  undo_swap-Within p attached (some snap) log w =
      logged_quiet env start (Clean start) (update_xdp_link (dispatcher_link_path env.base p.key) _)
        (λ _. tt) (held env start p.key p.revision attached) log (λ x h. h) w

  pub persist-Within :
      (p : XdpPlan) (attached : List AttachedExt) (spec : DispatcherSnapshotSpec) (log : Log)
      → All Pinned attached
      → Within start (swapped p attached p.snap) log
      → Post
          (Clean start)
          (λ _. Within start (swapped p attached p.snap))
          (persist env q p attached spec log)
  unfolding persist
  persist-Within p attached spec log pinned w =
      Post_on_error After (Clean start) (λ _. After) (λ _. After) _ _ _
        (invoke_quiet env start _ (replace_snapshot spec) (λ l. env.completed_of l spec) log
          (λ x e. e) w)
        (λ e l v.
          Post_bind (Clean start) (λ _. Within start (held env start p.key p.revision attached))
            (λ _. After) (undo_swap env q p p.snap l)
            (λ _. undo_attach env p.key p.revision attached >> fail e)
            (undo_swap-Within p attached p.snap l v)
            (λ _ k u. undo_attach-Clean env start p.key p.revision _ attached e k (pinned, u)))
        (λ _ l v. v)
    where
      After : Log → Type 0
      After = Within start (swapped p attached p.snap)
