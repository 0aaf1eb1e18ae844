-- ===== src/Rebuild/Tc/Swap.antt =====
-- rebuildTCDispatcher (manager/executor_dispatcher.go): what the swap and the store leave pinned.
use go_bpfman.Prelude.{ℕ, Text, List, Option, none, some}
use go_bpfman.Errors.{wrap}
use go_bpfman.Exec.{pure, fail, ◌>>◌}
use go_bpfman.Platform.{DispatcherSnapshot, DispatcherSnapshotSpec}
use go_bpfman.World.{create_tc_filter, TcFilter, replace_snapshot, Log, Env}
use go_bpfman.World.Pins.{Within}
use go_bpfman.World.Triples.{Post_if, Post, Post_bind, Post_on_error, invoke_quiet}
use go_bpfman.Rebuild.{undo_attach, AttachedExt}
use go_bpfman.Rebuild.Cleanup.{logged_quiet}
use go_bpfman.Rebuild.Keeps.{Clean, held, Loaded, undo_attach-Clean}
use go_bpfman.Rebuild.Filter.{old_filter, has_old_filter}
use go_bpfman.Rebuild.Tc.{
  restore_filter, detach_filter, prog_path, TcRequest, TcPlan, undo_attach, swap, undo_swap,
  persist,
}

module _ (env : Env) (q : TcRequest) (start : Log) where
  detach_filter-Within :
      (priority handle : ℕ) (ps : List Text) (log : Log)
      → Within start ps log
      → Post (Clean start) (λ _. Within start ps) (detach_filter env q priority handle log)
  unfolding detach_filter
  detach_filter-Within priority handle ps log w =
      logged_quiet env start (Clean start) _ (λ _. tt) ps log (λ x h. h) w

  pub swap-Within :
      (p : TcPlan) (attached : List AttachedExt) (log : Log)
      → Loaded env start p.key p.revision attached log
      → Post
          (Clean start)
          (λ _. Within start (held env start p.key p.revision attached))
          (swap env q p attached log)
  unfolding swap
  swap-Within p attached log (pinned, w) =
      Post_on_error After (Clean start) (λ _. After) (λ _. After) _ _ _
        (invoke_quiet env start ps
          (create_tc_filter (prog_path env q p) q.ifindex q.ifname q.direction q.netns_path 0)
          (λ l. env.filter_of l (prog_path env q p)) log (λ x e. e) w)
        (λ e l v.
          undo_attach-Clean env start p.key p.revision _ attached (wrap "create TC filter" e) l
            (pinned, v))
        (λ filter l v.
          let old = old_filter p.snap in
          Post_bind (Clean start) (λ _. After) (λ _. After) _ _
            (Post_if (Clean start) (λ _. After) (has_old_filter p.snap)
              (detach_filter env q old.priority old.handle) (pure tt) l
              (detach_filter-Within old.priority old.handle ps l v) v)
            (λ _ k u. u))
    where
      ps : List Text
      ps = held env start p.key p.revision attached

      After : Log → Type 0
      After = Within start ps

  restore_filter-Within :
      (p : TcPlan) (snap : Option DispatcherSnapshot) (ps : List Text) (log : Log)
      → Within start ps log
      → Post (Clean start) (λ _. Within start ps) (restore_filter env q p snap log)
  unfolding restore_filter
  restore_filter-Within p none ps log w = w
  restore_filter-Within p (some snap) ps log w =
      Post_if (Clean start) (λ _. Within start ps) (has_old_filter (some snap)) _ _ log
        (logged_quiet env start (Clean start) _ _ ps log (λ x h. h) w) w

  pub persist-Within :
      (p : TcPlan) (attached : List AttachedExt) (filter : TcFilter) (spec : DispatcherSnapshotSpec)
      (log : Log)
      → Loaded env start p.key p.revision attached log
      → Post
          (Clean start)
          (λ _. Within start (held env start p.key p.revision attached))
          (persist env q p attached filter spec log)
  unfolding persist undo_swap
  persist-Within p attached filter spec log (pinned, w) =
      Post_on_error After (Clean start) (λ _. After) (λ _. After) _ _ _
        (invoke_quiet env start ps (replace_snapshot spec) (λ l. env.completed_of l spec) log
          (λ x e. e) w)
        (λ e l v.
          Post_bind (Clean start) (λ _. After) (λ _. After) (undo_swap env q p filter l)
            (λ _. undo_attach env p.key p.revision attached >> fail e)
            (Post_bind (Clean start) (λ _. After) (λ _. After) _ _
              (detach_filter-Within filter.priority filter.handle ps l v)
              (λ _ k u. restore_filter-Within p p.snap ps k u))
            (λ _ k u. undo_attach-Clean env start p.key p.revision _ attached e k (pinned, u)))
        (λ _ l v. v)
    where
      ps : List Text
      ps = held env start p.key p.revision attached

      After : Log → Type 0
      After = Within start ps
