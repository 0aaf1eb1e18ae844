-- ===== src/Rebuild/Detach/Steps.antt =====
-- What the two rebuilds after a detach (manager/executor_dispatcher.go) share, and what the shared
-- steps keep of the pins.
use go_bpfman.Prelude.{ℕ, codes, List, [], ◌∷◌}
use go_bpfman.Errors.{Err}
use go_bpfman.Exec.{Exec, fail, ◌>>◌, logged}
use go_bpfman.Platform.{Key}
use go_bpfman.Layout.{dispatcher_prog_path, dispatcher_revision_dir}
use go_bpfman.World.{remove_rev_dir, attach_xdp, Log, Env}
use go_bpfman.World.Pins.{Within}
use go_bpfman.World.Triples.{Post}
use go_bpfman.Rebuild.{AttachedExt, cleanup_extensions}
use go_bpfman.Rebuild.Cleanup.{logged_release, undo-Attached}
use go_bpfman.Rebuild.Keeps.{Clean, Loaded}
use go_bpfman.Rebuild.Empty.{remove_dispatcher_revision_dir}

module _ (env : Env) where
  -- cleanupNewRevision
  abbrev pub cleanup_new_revision : Key → ℕ → Exec Log (Unit {0})
  cleanup_new_revision key revision = logged (remove_dispatcher_revision_dir env key revision)

module _ (env : Env) (start : Log) (key : Key) (revision : ℕ) where
  -- The removal of the revision directory takes the dispatcher's pin with it.
  pub cleanup_new_revision-Clean :
      (log : Log)
      → Within start (dispatcher_prog_path env.base key revision ∷ []) log
      → Post (Clean start) (λ _. Clean start) (cleanup_new_revision env key revision log)
  unfolding remove_dispatcher_revision_dir dispatcher_prog_path
  cleanup_new_revision-Clean log w =
      logged_release env start (Clean start)
        (remove_rev_dir (dispatcher_revision_dir env.base key revision))
        (dispatcher_prog_path env.base key revision) [] log (λ p h. h)
        (λ p e. (codes "dispatcher", e)) w

  pub undo_revision-Clean :
      {A : Type 0} (Q : A → Log → Type 0) (attached : List AttachedExt) (e : Err) (log : Log)
      → Loaded env start key revision attached log
      → Post (Clean start) Q (
          (cleanup_extensions env attached >> (cleanup_new_revision env key revision >> fail e))
            log)
  undo_revision-Clean Q attached e log w =
      undo-Attached env start attach_xdp (λ _ p h. h) key revision
        (dispatcher_prog_path env.base key revision) Q (cleanup_new_revision env key revision)
        cleanup_new_revision-Clean attached e log w
