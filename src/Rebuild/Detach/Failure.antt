-- ===== src/Rebuild/Detach/Failure.antt =====
-- rebuildDispatcherForDetach (manager/executor_dispatcher.go): what a failure leaves pinned.
use mathlib.Core.Path.{subst}
use go_bpfman.Prelude.{◌≡◌, inl, inr, ℕ, Text, false, List, [], ◌∷◌, text_eq, if◌then◌else◌}
use go_bpfman.Errors.{Err}
use go_bpfman.Exec.{err, pure}
use go_bpfman.Platform.{xdp, dispatcher_type_eq, Key, DispatcherMember, DispatcherSnapshot}
use go_bpfman.Layout.{dispatcher_prog_path}
use go_bpfman.World.{done, failed, get_snapshot, stat, Log, Env}
use go_bpfman.World.Pins.{Within-quiet, Leaked, Within-refl}
use go_bpfman.World.Triples.{
  Post, Post_bind, Post_on_error, Post_if, Post_wrapped, Post_err, Post_weaken, Post_invoke,
  invoke_quiet,
}
use go_bpfman.Rebuild.{next_revision}
use go_bpfman.Rebuild.Keeps.{Clean}
use go_bpfman.Rebuild.Empty.{remove_empty_dispatcher}
use go_bpfman.Rebuild.Empty.Keeps.{remove_empty_dispatcher-Clean}
use go_bpfman.Rebuild.Detach.Xdp.{rebuild_xdp_for_detach}
use go_bpfman.Rebuild.Detach.Xdp.Failure.{rebuild_xdp_for_detach-Clean}
use go_bpfman.Rebuild.Detach.Tc.{rebuild_tc_for_detach}
use go_bpfman.Rebuild.Detach.Tc.Failure.{rebuild_tc_for_detach-Clean}
use go_bpfman.Rebuild.Detach.{
  without, slots_of, netns_gone, rebuild_remaining, rebuild_or_remove,
  rebuild_dispatcher_for_detach,
}

module _ (env : Env) (start : Log) where
  netns_gone-Clean :
      (path : Text) (log : Log)
      → Clean start log
      → Post (Clean start) (λ _. Clean start) (netns_gone env path log)
  unfolding netns_gone
  netns_gone-Clean path log w =
      Post_if (Clean start) (λ _. Clean start) (text_eq path []) (pure false) _ log w
        (Post_on_error (Clean start) (Clean start) (λ _. Clean start) (λ _. Clean start) _ _ _
          (invoke_quiet env start [] (stat path) (λ _. tt) log (λ p h. h) w) (λ e l v. v)
          (λ _ l v. v))

  rebuild_remaining-Clean :
      (key : Key) (snap : DispatcherSnapshot) (log : Log)
      → snap.key ≡ key
      → Clean start log
      → Post (Clean start) (λ _ _. Unit) (rebuild_remaining env key snap log)
  unfolding rebuild_remaining
  rebuild_remaining-Clean key snap log same w =
      let revision = next_revision snap.revision in
      subst
        (λ k.
          Post (Clean start) (λ _ _. Unit)
            ((if dispatcher_type_eq key.typ xdp
                then rebuild_xdp_for_detach env snap revision (slots_of snap.members)
                    (dispatcher_prog_path env.base k revision)
                else rebuild_tc_for_detach env snap revision (slots_of snap.members)
                    (dispatcher_prog_path env.base k revision))
              log))
        same
        (Post_if (Clean start) (λ _ _. Unit) (dispatcher_type_eq key.typ xdp) _ _ log
          (rebuild_xdp_for_detach-Clean env snap revision start (slots_of snap.members) log w)
          (rebuild_tc_for_detach-Clean env snap revision start (slots_of snap.members) log w))

  removed :
      (snap : DispatcherSnapshot) (log : Log)
      → Clean start log
      → Post (Clean start) (λ _ _. Unit) (remove_empty_dispatcher env snap log)
  removed snap log w =
      Post_weaken (Clean start) (λ _. Clean start) (λ _ _. Unit)
        (remove_empty_dispatcher env snap log) (remove_empty_dispatcher-Clean env start snap log w)
        (λ _ _ _. tt)

  rebuild_or_remove-Clean :
      (key : Key) (snap : DispatcherSnapshot) (members : List DispatcherMember) (log : Log)
      → snap.key ≡ key
      → Clean start log
      → Post (Clean start) (λ _ _. Unit) (rebuild_or_remove env key snap members log)
  unfolding rebuild_or_remove
  rebuild_or_remove-Clean key snap [] log same w = removed snap log w
  rebuild_or_remove-Clean key snap (m ∷ members) log same w =
      Post_bind (Clean start) (λ _. Clean start) (λ _ _. Unit) _ _
        (netns_gone-Clean snap.runtime.netns_path log w)
        (λ gone l v.
          Post_if (Clean start) (λ _ _. Unit) gone (remove_empty_dispatcher env snap)
            (rebuild_remaining env key snap) l (removed snap l v)
            (rebuild_remaining-Clean key snap l same v))

-- Where the store returns the snapshot of the key that it is asked for, a rebuild after a detach that
-- returns an error, at whatever call it fails, has asked to remove every path that it pinned.
pub rebuild_dispatcher_for_detach-err_leaves_no_pin :
    (env : Env) (key : Key) (link_id : ℕ) (log log' : Log) (e : Err)
    → ((l : Log) → (env.snapshot_of l key).key ≡ key)
    → rebuild_dispatcher_for_detach env key link_id log ≡ (err e, log')
    → (p : Text) → Leaked p log'
    → Leaked p log
unfolding rebuild_dispatcher_for_detach
rebuild_dispatcher_for_detach-err_leaves_no_pin env key link_id log log' e keyed fails p h =
    elim (Post_err (Clean log) (λ _ _. Unit) (rebuild_dispatcher_for_detach env key link_id log) e
      log'
      (Post_bind (Clean log) (λ stored l. (stored.key ≡ key) × Clean log l) (λ _ _. Unit) _ _
        (Post_wrapped (Clean log) (λ stored l. (stored.key ≡ key) × Clean log l)
          "get dispatcher snapshot" _
          (Post_invoke env (Clean log) (λ stored l. (stored.key ≡ key) × Clean log l)
            (get_snapshot key) (λ l. env.snapshot_of l key) log
            (
              keyed log,
              Within-quiet log [] log (done (get_snapshot key)) (λ p h. h) (Within-refl log),
            )
            (λ x.
              Within-quiet log [] log (failed (get_snapshot key) x) (λ p h. h) (Within-refl log))))
        (λ stored l v.
          let members = without link_id stored.members in
          rebuild_or_remove-Clean env log key (record stored { members = members }) members l v.0
            v.1))
      fails p h) [ inl old ↦ old | inr none_in ↦ absurd none_in ]
