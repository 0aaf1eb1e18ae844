-- ===== src/Manager/Unload.antt =====
-- Unloading a program (manager/unload.go).
pub mod Keeps
pub mod Contract
pub mod Program
pub mod Total
use go_bpfman.Prelude.{
  ℕ, Text, Bool, true, false, ◌&&◌, not, List, [], ◌∷◌, ◌++◌, Option, none, some, ◌==◌, codes, ltb,
  if◌then◌else◌,
}
use go_bpfman.Errors.{Err, program_not_managed, wrap, errors_join, is_program_not_found}
use go_bpfman.Exec.{
  Outcome, ok, err, panic, Exec, pure, fail, ◌>>=◌, ◌>>◌, wrapping, logged, attempt, on_error,
}
use go_bpfman.Platform.{Key}
use go_bpfman.Links.{LinkRecord}
use go_bpfman.Layout.{decimal, shared_map_pin, program_dir}
use go_bpfman.Manager.World.{
  World, ManagerEnv, ProgramRecord, invoke, invoke_unit, delete_program, delete_shared_map_pins,
  map_set_exists, count_map_set_users, delete_map_set, kernel_program, detach_link, unload_pin,
  remove_shared_map_pin, remove_program_dir, list_links_by_program,
}
use go_bpfman.Manager.Executor.{Action, execute}
use go_bpfman.Manager.Executor
use go_bpfman.Manager.Lookup.{get_program}
use go_bpfman.Manager.Detach.{
  extract_dispatcher_key, is_unset, lift, insert_key, delete_key, collect_dispatcher_keys,
  cleanup_empty_dispatchers,
}

abbrev is_none : {A : Type 0} → Option A → Bool
is_none none = true
is_none (some _) = false

-- mapSetID
unfoldable pub map_set_id : ProgramRecord → ℕ
map_set_id p = elim p.map_owner_id [ none ↦ p.program_id | some owner ↦ owner ]

-- delete(dispatcherCleanup, key) for each rebuilt key
unfoldable pub delete_keys : List Key → List Key → List Key
unfolding delete_key
delete_keys [] keys = keys
delete_keys (k ∷ rebuilt) keys = delete_keys rebuilt (delete_key k keys)

module _ (env : ManagerEnv) where
  -- One pinned link of detachAllLinks, with the rebuilt keys so far.
  unfoldable pub detach_pinned : LinkRecord → Text → List Key → Exec World (List Key)
  unfolding extract_dispatcher_key insert_key
  detach_pinned link path rebuilt = do
    wrapping "detach link" (invoke_unit env (detach_link path))
    key ← wrapping "extract dispatcher key for link" (lift (extract_dispatcher_key link.details))
    if is_unset key
        then pure rebuilt
        else wrapping "rebuild dispatcher after detaching link"
            (execute env (Executor.rebuild_dispatcher_for_detach key link.id))
          >> pure (insert_key key rebuilt)

  -- detachAllLinks
  unfoldable pub detach_all_links : List Key → List LinkRecord → Exec World (List Key)
  unfolding detach_pinned
  detach_all_links rebuilt [] = pure rebuilt
  detach_all_links rebuilt (link ∷ links) = elim link.pin_path [
    | none ↦ detach_all_links rebuilt links
    | some path ↦ detach_pinned link path rebuilt >>= λ keys. detach_all_links keys links
  ]

  -- removeProgramMapsPins
  abbrev pub remove_program_maps_pins : Text → Exec World (Unit {0})
  remove_program_maps_pins dir = invoke_unit env (unload_pin dir)

  unfoldable pub remove_orphaned : List Text → Exec World (Unit {0})
  unfolding shared_map_pin
  remove_orphaned [] = pure tt
  remove_orphaned (name ∷ names) = do
    logged (invoke_unit env (remove_shared_map_pin (shared_map_pin env.base name)))
    remove_orphaned names

  -- cleanupSharedMapPins
  unfoldable pub cleanup_shared_map_pins : ℕ → Exec World (Unit {0})
  unfolding remove_orphaned
  cleanup_shared_map_pins id = do
    orphaned ← invoke env (delete_shared_map_pins id) (λ w. env.orphaned_of w id)
    remove_orphaned orphaned

  -- gcMapSetIfUnused
  unfoldable pub gc_map_set_if_unused : ℕ → Text → Exec World (Unit {0})
  gc_map_set_if_unused id dir = do
    users ←
        wrapping "count map set users"
          (invoke env (count_map_set_users id) (λ w. env.users_of w id))
    if ltb 0 users
        then pure tt
        else wrapping "remove map set pins" (remove_program_maps_pins dir)
          >> wrapping "delete map set" (invoke_unit env (delete_map_set id))

  -- shouldRemoveNonPersistedSelfOwnedMapPins
  unfoldable pub should_remove_map_pins : ℕ → Exec World Bool
  should_remove_map_pins id =
      on_error (invoke env (map_set_exists id) (λ w. env.exists_of w id)) (λ _. pure false)
        (λ exists. pure (not exists))

  -- The part of unload for a program with a record; the result is the list errs.
  unfoldable pub delete_record : ProgramRecord → Exec World (List Err)
  unfolding gc_map_set_if_unused map_set_id
  delete_record p =
      on_error (invoke_unit env (delete_program p.program_id))
        (λ e. pure (wrap "delete program record" e ∷ []))
        (λ _. logged (gc_map_set_if_unused (map_set_id p) p.maps_dir) >> pure [])

  abbrev pub remove_maps : Text → Bool → Exec World (List Err)
  remove_maps dir remove =
      (if remove then logged (remove_program_maps_pins dir) else pure tt) >> pure []

  -- The part for a program that was never recorded.
  unfoldable pub remove_unrecorded : ProgramRecord → Exec World (List Err)
  unfolding should_remove_map_pins map_set_id
  remove_unrecorded p =
      if map_set_id p == p.program_id
      then should_remove_map_pins p.program_id >>= remove_maps p.maps_dir
      else pure []

  -- From the point of no return on.
  unfoldable pub after_unload :
      ProgramRecord → List LinkRecord → Bool → List Key → Exec World (Unit {0})
  unfolding cleanup_shared_map_pins delete_record remove_unrecorded program_dir
      collect_dispatcher_keys delete_keys cleanup_empty_dispatchers
  after_unload p links persisted rebuilt = do
    logged (cleanup_shared_map_pins p.program_id)
    errs ← if persisted then delete_record p else remove_unrecorded p
    logged (invoke_unit env (remove_program_dir (program_dir env.base p.program_id)))
    cleanup_empty_dispatchers env (delete_keys rebuilt (collect_dispatcher_keys links))
    elim (errors_join errs) [ none ↦ pure tt | some e ↦ fail e ]

  -- unload
  unfoldable pub unload : ProgramRecord → List LinkRecord → Bool → Exec World (Unit {0})
  unfolding detach_all_links after_unload
  unload p links persisted = do
    rebuilt ← wrapping "detach links for program" (detach_all_links [] links)
    wrapping "unload program" (invoke_unit env (unload_pin p.pin_path))
    after_unload p links persisted rebuilt

  -- The errors of the lookup: a program that only the kernel knows is not managed.
  unfoldable pub lookup_failed : ℕ → Err → Exec World (Unit {0})
  lookup_failed id e =
      if is_program_not_found e
      then on_error (invoke_unit env (kernel_program id)) (λ _. fail e)
          (λ _. fail (program_not_managed id))
      else fail e

  -- Unload
  unfoldable pub unload_program : ℕ → Exec World (Unit {0})
  unfolding get_program lookup_failed unload
  unload_program id = on_error (get_program env id) (lookup_failed id) λ p. do
    links ←
        wrapping "list links for program"
          (invoke env (list_links_by_program id) (λ w. env.links_of w id))
    unload p links true
