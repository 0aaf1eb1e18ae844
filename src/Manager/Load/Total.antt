-- ===== src/Manager/Load/Total.antt =====
-- The steps of a load return from every world.
use go_bpfman.Prelude.{ℕ, Text, Bool, false, ◌≡◌, refl, List, [], ◌∷◌}
use go_bpfman.Errors.{errors_join}
use go_bpfman.Exec.{Outcome, ok, err, panic, Exec, wrapping, ◌>>◌}
use go_bpfman.Exec.Total.{
  IsTotal, Returned, pure-IsTotal, fail-IsTotal, bind-IsTotal, on_error-IsTotal, if-IsTotal,
  wrapping-IsTotal, logged-IsTotal,
}
use go_bpfman.Platform.{Key}
use go_bpfman.Manager.World.{
  World, ManagerEnv, ProgramRecord, KernelMap, invoke_unit, unload_pin, rollback,
}
use go_bpfman.Manager.Detach.{
  cleanup_empty_dispatchers, collect_dispatcher_keys, delete_key, cleanup_each,
}
use go_bpfman.Manager.Detach.Total.{invoke-IsTotal}
use go_bpfman.Manager.Unload.{
  unload, after_unload, detach_all_links, delete_keys, remove_unrecorded, remove_maps,
  should_remove_map_pins,
}
use go_bpfman.Manager.Unload.Total.{cleanup_shared_map_pins-IsTotal, joined-IsTotal}
use go_bpfman.Manager.Transaction.{rolled_back, run_transaction_attempt, run_in_transaction}
use go_bpfman.Manager.Load.{
  Loaded, cleanup_loaded, lookup_maps, save_shared, save_item, save_items, save_batch,
}

delete_keys_none : (keys : List Key) → delete_keys keys [] ≡ []
unfolding delete_keys delete_key
delete_keys_none [] = refl
delete_keys_none (k ∷ keys) = delete_keys_none keys

none_collected : collect_dispatcher_keys [] ≡ []
unfolding collect_dispatcher_keys
none_collected = refl

module _ (env : ManagerEnv) where
  remove_maps-IsTotal : (dir : Text) (remove : Bool) → IsTotal (remove_maps env dir remove)
  remove_maps-IsTotal dir remove =
      bind-IsTotal _ _
        (if-IsTotal remove _ _ (logged-IsTotal _ (invoke-IsTotal env _ _)) (pure-IsTotal _ _))
        (λ _. pure-IsTotal _ _)

  remove_unrecorded-IsTotal : (p : ProgramRecord) → IsTotal (remove_unrecorded env p)
  unfolding remove_unrecorded should_remove_map_pins
  remove_unrecorded-IsTotal p =
      if-IsTotal _ _ _
        (bind-IsTotal _ _
          (on_error-IsTotal _ _ _ (invoke-IsTotal env _ _) (λ _. pure-IsTotal _ _)
            (λ _. pure-IsTotal _ _))
          (remove_maps-IsTotal p.maps_dir))
        (pure-IsTotal _ _)

  detach_none-IsTotal : IsTotal (detach_all_links env [] [])
  unfolding detach_all_links
  detach_none-IsTotal = pure-IsTotal _ _

  -- A range over no keys visits none.
  abbrev pub NoKeys : Type 0
  NoKeys = (w : World) → env.order w [] ≡ []

  module _ (none_visited : NoKeys) where
    cleanup_none-IsTotal : IsTotal (cleanup_empty_dispatchers env [])
    unfolding cleanup_empty_dispatchers cleanup_each IsTotal
    cleanup_none-IsTotal w = rw (none_visited w) tt

    after_unload-IsTotal :
        (p : ProgramRecord) (rebuilt : List Key) → IsTotal (after_unload env p [] false rebuilt)
    unfolding after_unload
    after_unload-IsTotal p rebuilt =
        bind-IsTotal _ _ (logged-IsTotal _ (cleanup_shared_map_pins-IsTotal env _)) λ _.
          bind-IsTotal _ _ (remove_unrecorded-IsTotal p) λ errs.
            bind-IsTotal _ _ (logged-IsTotal _ (invoke-IsTotal env _ _)) λ _.
              bind-IsTotal
                (cleanup_empty_dispatchers env (delete_keys rebuilt (collect_dispatcher_keys []))) _
                (rw (none_collected, delete_keys_none rebuilt) cleanup_none-IsTotal)
                (λ _. joined-IsTotal env (errors_join errs))

    unload-IsTotal : (p : ProgramRecord) → IsTotal (unload env p [] false)
    unfolding unload
    unload-IsTotal p =
        let remove : Exec World (Unit {0}) =
          wrapping "unload program" (invoke_unit env (unload_pin p.pin_path)) in
        bind-IsTotal (wrapping "detach links for program" (detach_all_links env [] []))
          (λ rebuilt. remove >> after_unload env p [] false rebuilt)
          (wrapping-IsTotal "detach links for program" (detach_all_links env [] [])
            detach_none-IsTotal)
          λ rebuilt.
            bind-IsTotal remove (λ _. after_unload env p [] false rebuilt)
              (wrapping-IsTotal "unload program" (invoke_unit env (unload_pin p.pin_path))
                (invoke-IsTotal env (unload_pin p.pin_path) (λ _. tt)))
              (λ _. after_unload-IsTotal p rebuilt)

    pub cleanup_loaded-IsTotal : (loaded : List Loaded) → IsTotal (cleanup_loaded env loaded)
    unfolding cleanup_loaded
    cleanup_loaded-IsTotal [] = pure-IsTotal _ _
    cleanup_loaded-IsTotal (p ∷ loaded) =
        bind-IsTotal _ _ (logged-IsTotal _ (unload-IsTotal p.saved))
          (λ _. cleanup_loaded-IsTotal loaded)

  pub lookup_maps-IsTotal :
      (ids : List ℕ) (maps : List KernelMap) → IsTotal (lookup_maps env ids maps)
  unfolding lookup_maps
  lookup_maps-IsTotal [] maps = pure-IsTotal _ _
  lookup_maps-IsTotal (id ∷ ids) maps =
      on_error-IsTotal _ _ _ (invoke-IsTotal env _ _) (λ _. lookup_maps-IsTotal ids maps)
        (λ m. lookup_maps-IsTotal ids _)

  save_shared-IsTotal : (id : ℕ) (names : List Text) → IsTotal (save_shared env id names)
  unfolding save_shared
  save_shared-IsTotal id [] = pure-IsTotal _ _
  save_shared-IsTotal id (name ∷ names) = wrapping-IsTotal _ _ (invoke-IsTotal env _ _)

  save_item-IsTotal : (it : Loaded) → IsTotal (save_item env it)
  unfolding save_item
  save_item-IsTotal it =
      on_error-IsTotal _ _ _ (invoke-IsTotal env _ _)
        (λ e.
          if-IsTotal _ _ _
            (bind-IsTotal _ _ (wrapping-IsTotal _ _ (invoke-IsTotal env _ _))
              (λ _. save_shared-IsTotal _ _))
            (wrapping-IsTotal _ _ (fail-IsTotal _ _ _)))
        (λ _. fail-IsTotal _ _ _)

  save_items-IsTotal : (items : List Loaded) → IsTotal (save_items env items)
  unfolding save_items
  save_items-IsTotal [] = pure-IsTotal _ _
  save_items-IsTotal (it ∷ items) =
      bind-IsTotal _ _ (save_item-IsTotal it) (λ _. save_items-IsTotal items)

  pub save_batch-IsTotal : (loaded : List Loaded) → IsTotal (save_batch env loaded)
  unfolding save_batch
  save_batch-IsTotal loaded =
      bind-IsTotal _ _ (save_items-IsTotal loaded) λ _.
        bind-IsTotal _ _ (wrapping-IsTotal _ _ (invoke-IsTotal env _ _)) (λ _. pure-IsTotal _ _)

  module _ {A : Type 0} (fn : Exec World A) (total : IsTotal fn) where
    rolled_back-IsTotal : (m : Exec World A) → IsTotal m → IsTotal (rolled_back env m)
    unfolding rolled_back IsTotal
    rolled_back-IsTotal m h w = go (m w) (h w)
      where
        go : (r : Outcome A × World) → Returned r → Returned (r.0, (invoke_unit env rollback r.1).1)
        go (ok a, v) k = tt
        go (err e, v) k = tt
        go (panic x, v) k = k

    attempt-IsTotal : IsTotal (run_transaction_attempt env fn)
    unfolding run_transaction_attempt
    attempt-IsTotal = bind-IsTotal _ _ (wrapping-IsTotal _ _ (invoke-IsTotal env _ _)) λ _.
        rolled_back-IsTotal _ (
          bind-IsTotal _ _ total
            (λ a. bind-IsTotal _ _ (invoke-IsTotal env _ _) (λ _. pure-IsTotal _ _)))

    pub run_in_transaction-IsTotal :
        (backoffs : List ℕ) → IsTotal (run_in_transaction env backoffs fn)
    unfolding run_in_transaction
    run_in_transaction-IsTotal [] = attempt-IsTotal
    run_in_transaction-IsTotal (b ∷ backoffs) =
        on_error-IsTotal _ _ _ attempt-IsTotal
          (λ e.
            if-IsTotal _ _ _
              (bind-IsTotal _ _ (invoke-IsTotal env _ _) (λ _. run_in_transaction-IsTotal backoffs))
              (fail-IsTotal _ _ _))
          (λ _. pure-IsTotal _ _)
