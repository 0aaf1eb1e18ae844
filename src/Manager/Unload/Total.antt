-- ===== src/Manager/Unload/Total.antt =====
-- Unloading returns wherever the executor does.
use go_bpfman.Prelude.{ℕ, Text, true, List, [], ◌∷◌, Option, none, some, ltb}
use go_bpfman.Errors.{Err, errors_join}
use go_bpfman.Exec.{pure, fail, ◌>>=◌}
use go_bpfman.Exec.Total.{
  IsTotal, pure-IsTotal, fail-IsTotal, on_error-IsTotal, if-IsTotal, bind-IsTotal, wrapping-IsTotal,
  logged-IsTotal,
}
use go_bpfman.Platform.{Key}
use go_bpfman.Links.{LinkRecord}
use go_bpfman.Manager.World.{World, ManagerEnv, ProgramRecord}
use go_bpfman.Manager.World
use go_bpfman.Manager.Lookup.{get_program}
use go_bpfman.Manager.Detach.Total.{IsCalm, invoke-IsTotal, key-IsTotal, cleanup-IsTotal}
use go_bpfman.Manager.Unload.{
  detach_pinned, detach_all_links, remove_orphaned, cleanup_shared_map_pins, gc_map_set_if_unused,
  delete_record, after_unload, unload, lookup_failed, unload_program,
}

module _ (env : ManagerEnv) where
  pub get_program-IsTotal : (id : ℕ) → IsTotal (get_program env id)
  unfolding get_program
  get_program-IsTotal id =
      on_error-IsTotal _ _ _ (invoke-IsTotal env (World.get_program id) _)
        (λ e. if-IsTotal _ _ _ (fail-IsTotal _ _ _) (fail-IsTotal _ _ _)) (λ a. pure-IsTotal _ a)

  remove_orphaned-IsTotal : (names : List Text) → IsTotal (remove_orphaned env names)
  unfolding remove_orphaned
  remove_orphaned-IsTotal [] = pure-IsTotal _ _
  remove_orphaned-IsTotal (name ∷ names) =
      bind-IsTotal _ _ (logged-IsTotal _ (invoke-IsTotal env _ _))
        (λ _. remove_orphaned-IsTotal names)

  pub cleanup_shared_map_pins-IsTotal : (id : ℕ) → IsTotal (cleanup_shared_map_pins env id)
  unfolding cleanup_shared_map_pins
  cleanup_shared_map_pins-IsTotal id =
      bind-IsTotal _ _ (invoke-IsTotal env _ _) remove_orphaned-IsTotal

  gc_map_set_if_unused-IsTotal : (id : ℕ) (dir : Text) → IsTotal (gc_map_set_if_unused env id dir)
  unfolding gc_map_set_if_unused
  gc_map_set_if_unused-IsTotal id dir =
      bind-IsTotal _ _ (wrapping-IsTotal _ _ (invoke-IsTotal env _ _)) λ users.
        if-IsTotal (ltb 0 users) _ _ (pure-IsTotal _ _) (
          bind-IsTotal _ _ (wrapping-IsTotal _ _ (invoke-IsTotal env _ _))
            (λ _. wrapping-IsTotal _ _ (invoke-IsTotal env _ _)))

  delete_record-IsTotal : (p : ProgramRecord) → IsTotal (delete_record env p)
  unfolding delete_record
  delete_record-IsTotal p =
      on_error-IsTotal _ _ _ (invoke-IsTotal env _ _) (λ e. pure-IsTotal _ _)
        λ _.
          bind-IsTotal _ _ (logged-IsTotal _ (gc_map_set_if_unused-IsTotal _ _))
            (λ _. pure-IsTotal _ _)

  pub joined-IsTotal :
      (o : Option Err)
      → IsTotal {W = World} {A = Unit {0}} (elim o [ none ↦ pure tt | some e ↦ fail e ])
  joined-IsTotal none = pure-IsTotal _ _
  joined-IsTotal (some e) = fail-IsTotal _ _ _

module _ (env : ManagerEnv) (calm : IsCalm env) where
  detach_pinned-IsTotal :
      (link : LinkRecord) (path : Text) (rebuilt : List Key)
      → IsTotal (detach_pinned env link path rebuilt)
  unfolding detach_pinned
  detach_pinned-IsTotal link path rebuilt =
      bind-IsTotal _ _ (wrapping-IsTotal _ _ (invoke-IsTotal env _ _)) λ _.
        bind-IsTotal _ _ (wrapping-IsTotal _ _ (key-IsTotal link.details)) λ key.
          if-IsTotal _ _ _ (pure-IsTotal _ _)
            (bind-IsTotal _ _ (wrapping-IsTotal _ _ (calm _)) (λ _. pure-IsTotal _ _))

  detach_all_links-IsTotal :
      (rebuilt : List Key) (links : List LinkRecord) → IsTotal (detach_all_links env rebuilt links)
  unfolding detach_all_links
  detach_all_links-IsTotal rebuilt [] = pure-IsTotal _ _
  detach_all_links-IsTotal rebuilt (link ∷ links) =
      go link.pin_path (λ keys. detach_all_links-IsTotal keys links)
    where
      go :
          (o : Option Text)
          → ((keys : List Key) → IsTotal (detach_all_links env keys links))
          → IsTotal (elim o [
            | none ↦ detach_all_links env rebuilt links
            | some path ↦
                detach_pinned env link path rebuilt >>= λ keys. detach_all_links env keys links
          ])
      go none rest = rest rebuilt
      go (some path) rest = bind-IsTotal _ _ (detach_pinned-IsTotal link path rebuilt) rest

  after_unload-IsTotal :
      (p : ProgramRecord) (links : List LinkRecord) (rebuilt : List Key)
      → IsTotal (after_unload env p links true rebuilt)
  unfolding after_unload
  after_unload-IsTotal p links rebuilt =
      bind-IsTotal _ _ (logged-IsTotal _ (cleanup_shared_map_pins-IsTotal env _)) λ _.
        bind-IsTotal _ _ (delete_record-IsTotal env p) λ errs.
          bind-IsTotal _ _ (logged-IsTotal _ (invoke-IsTotal env _ _)) λ _.
            bind-IsTotal _ _ (cleanup-IsTotal env calm _)
              (λ _. joined-IsTotal env (errors_join errs))

  lookup_failed-IsTotal : (id : ℕ) (e : Err) → IsTotal (lookup_failed env id e)
  unfolding lookup_failed
  lookup_failed-IsTotal id e =
      if-IsTotal _ _ _
        (on_error-IsTotal _ _ _ (invoke-IsTotal env _ _) (λ _. fail-IsTotal _ _ _)
          (λ _. fail-IsTotal _ _ _))
        (fail-IsTotal _ _ _)

  pub unload_program-IsTotal : (id : ℕ) → IsTotal (unload_program env id)
  unfolding unload_program unload
  unload_program-IsTotal id =
      on_error-IsTotal _ _ _ (get_program-IsTotal env id) (lookup_failed-IsTotal id) λ p.
        bind-IsTotal _ _ (wrapping-IsTotal _ _ (invoke-IsTotal env _ _)) λ links.
          bind-IsTotal _ _ (wrapping-IsTotal _ _ (detach_all_links-IsTotal [] links)) λ rebuilt.
            bind-IsTotal _ _ (wrapping-IsTotal _ _ (invoke-IsTotal env _ _))
              (λ _. after_unload-IsTotal p links rebuilt)
