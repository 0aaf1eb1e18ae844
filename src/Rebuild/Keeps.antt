-- ===== src/Rebuild/Keeps.antt =====
-- What the shared steps of a rebuild (manager/executor_dispatcher.go) keep of the pins.
use go_bpfman.Prelude.{◌≡◌, arith, ℕ, String, Text, List, [], ◌∷◌, ◌++◌, Option, none, some, All}
use go_bpfman.Errors.{Err, is_not_found}
use go_bpfman.Exec.{Outcome, ok, err, panic, fail, ◌>>◌, wrapping}
use go_bpfman.Platform.{Key, DispatcherSnapshot}
use go_bpfman.Layout.{dispatcher_prog_path}
use go_bpfman.World.{Log, Env, get_snapshot, link_info}
use go_bpfman.World.Pins.{Within}
use go_bpfman.World.Triples.{
  Post, Post_bind, Post_dropped, Post_on_error, Post_if, Post_invoke, invoke_quiet,
}
use go_bpfman.Rebuild.{
  AttachedExt, lift, query_snapshot, verify_extensions, cleanup_extensions, cleanup_new_dispatcher,
  undo_attach, remove_old, element,
}
use go_bpfman.Rebuild.Cleanup.{
  Pinned, pins, logged_quiet, cleanup_extensions-Within, cleanup_new_dispatcher-Within,
}

-- Nothing is pinned that was not pinned at the start.
abbrev pub Clean : Log → Log → Type 0
Clean start log = Within start [] log

module _ (env : Env) (start : Log) (key : Key) (revision : ℕ) where
  -- The pins of the new dispatcher between the attach loop and the swap.
  abbrev pub held : List AttachedExt → List Text
  held attached = pins attached ++ dispatcher_prog_path env.base key revision ∷ []

  abbrev pub Loaded : List AttachedExt → Log → Type 0
  Loaded attached log = All Pinned attached × Within start (held attached) log

  pub undo_attach-Clean :
      {A : Type 0} (Q : A → Log → Type 0) (attached : List AttachedExt) (e : Err) (log : Log)
      → Loaded attached log
      → Post (Clean start) Q ((undo_attach env key revision attached >> fail e) log)
  unfolding undo_attach
  undo_attach-Clean Q attached e log (pinned, w) =
      let prog = dispatcher_prog_path env.base key revision in
      Post_bind (Clean start) (λ _. Clean start) Q (undo_attach env key revision attached log)
        (λ _. fail e)
        (Post_bind (Clean start) (λ _. Within start (prog ∷ [])) (λ _. Clean start)
          (cleanup_extensions env attached log) (λ _. cleanup_new_dispatcher env prog)
          (cleanup_extensions-Within env start (Clean start) attached (prog ∷ []) pinned log w)
          (λ _ l v. cleanup_new_dispatcher-Within env start (Clean start) prog [] l v))
        (λ _ l v. v)

module _ (env : Env) (start : Log) where
  pub query_snapshot-Clean :
      (key : Key) (log : Log)
      → Clean start log
      → Post (Clean start) (λ _. Clean start) (query_snapshot env key log)
  unfolding query_snapshot
  query_snapshot-Clean key log w =
      Post_on_error (Clean start) (Clean start) (λ _. Clean start) (λ _. Clean start) _ _ _
        (invoke_quiet env start [] (get_snapshot key) (λ l. env.snapshot_of l key) log (λ x e. e) w)
        (λ e l v. Post_if (Clean start) (λ _. Clean start) (is_not_found e) _ _ l v v) (λ _ l v. v)

  pub verify_extensions-Within :
      (ps : List Text) (attached : List AttachedExt) (log : Log)
      → Within start ps log
      → Post (Clean start) (λ _. Within start ps) (verify_extensions env attached log)
  unfolding verify_extensions
  verify_extensions-Within ps [] log w = w
  verify_extensions-Within ps (ext ∷ attached) log w =
      Post_bind (Clean start) (λ _. Within start ps) (λ _. Within start ps) _ _
        (logged_quiet env start (Clean start) (link_info ext.pin_path) (λ _. tt) ps log (λ x h. h)
          w)
        (λ _ l v. verify_extensions-Within ps attached l v)

  -- The steps after the snapshot is stored have no error.
  pub remove_old_any :
      (key : Key) (snap : Option DispatcherSnapshot) (log : Log)
      → Post (Clean start) (λ _ _. Unit) (remove_old env key snap log)
  unfolding remove_old
  remove_old_any key none log = tt
  remove_old_any key (some snap) log =
      Post_dropped (Clean start) (λ _. Unit) (λ _. Unit) (λ _ _. Unit) _
        (Post_invoke env (λ _. Unit) (λ _ _. Unit) _ (λ _. tt) log tt (λ _. tt)) (λ _ _. tt)
        (λ _ _ _. tt)

module _ {A : Type 0} where
  pub lift-Post :
      (E : Log → Type 0) (r : Outcome A) (log : Log) → E log → Post E (λ _. E) (lift r log)
  lift-Post E (ok a) log w = w
  lift-Post E (err e) log w = w
  lift-Post E (panic m) log w = tt

  pub element_any : (E : Log → Type 0) (o : Option A) (l : Log) → Post E (λ _ _. Unit) (element o l)
  element_any E none l = tt
  element_any E (some a) l = tt

  pub lift_ok :
      (E : Log → Type 0) (label : String) (r : Outcome A) (a : A) (l : Log)
      → r ≡ ok a
      → Post E (λ _ _. Unit) (wrapping label (lift r) l)
  lift_ok E label (ok b) a l e = tt
  lift_ok E label (err x) a l e = absurd (ground (arith, e))
  lift_ok E label (panic m) a l e = absurd (ground (arith, e))
