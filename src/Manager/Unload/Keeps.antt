-- ===== src/Manager/Unload/Keeps.antt =====
-- The steps of detaching and unloading, but for the deletion of the record, keep what calls other
-- than deletions of records keep.
use go_bpfman.Prelude.{ℕ, Text, Bool, List, [], ◌∷◌, Option, none, some, ◌==◌, ltb, if◌then◌else◌}
use go_bpfman.Errors.{Err}
use go_bpfman.Exec.{Exec, pure, proceed, wrapped, dropped, logged, ◌>>=◌}
use go_bpfman.Exec.Ends.{Ends, Ends-wrapped, Ends-bind, Ends-if, Ends-on_error}
use go_bpfman.Platform.{Key}
use go_bpfman.Layout.{shared_map_pin}
use go_bpfman.Links.{LinkRecord}
use go_bpfman.Manager.World.{Event, Trace, World, ManagerEnv, ProgramRecord, invoke, invoke_unit}
use go_bpfman.Manager.World
use go_bpfman.Manager.World.Since.{call_of, IsOther, Since, invoke_keeps}
use go_bpfman.Manager.Executor.{Action, execute}
use go_bpfman.Manager.Executor
use go_bpfman.Manager.Executor.Keeps.{Keeps, Keeps-logged, execute-Keeps}
use go_bpfman.Manager.Detach.{
  extract_dispatcher_key, is_unset, lift, cleanup_each, cleanup_empty_dispatchers,
}
use go_bpfman.Manager.Unload.{
  detach_pinned, detach_all_links, remove_orphaned, cleanup_shared_map_pins, gc_map_set_if_unused,
  should_remove_map_pins, remove_unrecorded, remove_maps, map_set_id,
}
use go_bpfman.Exec.{Outcome, ok, err, panic}

module _ (env : ManagerEnv) (start : World) (P : Trace → Type 0)
    (closed : (ev : Event) (new : Trace) → IsOther (call_of ev) → P new → P (ev ∷ new)) where
  abbrev I : World → Type 0
  I = Since start P

  cleanup_each-Keeps :
      (E : Err → World → Type 0) (keys : List Key) (w : World)
      → I w
      → Ends E (λ _. I) (cleanup_each env keys w)
  unfolding cleanup_each
  cleanup_each-Keeps E [] w i = i
  cleanup_each-Keeps E (key ∷ keys) w i =
      Ends-bind E (λ _. I) (λ _. I) (dropped (execute env (Executor.remove_dispatcher key) w)) _
        (Keeps-logged start P E _
          (execute-Keeps env start P closed (Executor.remove_dispatcher key) w i))
        (λ _ v j. cleanup_each-Keeps E keys v j)

  -- The cleanup of dispatchers returns no error at all.
  pub cleanup_empty_dispatchers-Keeps :
      (E : Err → World → Type 0) (keys : List Key) (w : World)
      → I w
      → Ends E (λ _. I) (cleanup_empty_dispatchers env keys w)
  unfolding cleanup_empty_dispatchers
  cleanup_empty_dispatchers-Keeps E keys w i = cleanup_each-Keeps E (env.order w keys) w i

  extracted-Keeps :
      (r : Outcome Key) (f : Key → Exec World (List Key)) (w : World)
      → ((key : Key) (v : World) → I v → Keeps start P (f key v))
      → I w
      → Keeps start P (proceed (wrapped "extract dispatcher key for link" (lift r w)) f)
  extracted-Keeps (ok key) f w h i = h key w i
  extracted-Keeps (err e) f w h i = i
  extracted-Keeps (panic m) f w h i = tt

  detach_pinned-Keeps :
      (link : LinkRecord) (path : Text) (rebuilt : List Key) (w : World)
      → I w
      → Keeps start P (detach_pinned env link path rebuilt w)
  unfolding detach_pinned
  detach_pinned-Keeps link path rebuilt w i =
      Ends-bind (λ _. I) (λ _. I) (λ _. I)
        (wrapped "detach link" (invoke env (World.detach_link path) (λ _. tt) w)) _
        (Ends-wrapped (λ _. I) (λ _. I) "detach link" _
          (invoke_keeps env start P closed (World.detach_link path) (λ _. tt) w tt i))
        λ _ v j.
          extracted-Keeps (extract_dispatcher_key link.details) _ v
            (λ key u k.
              Ends-if (λ _. I) (λ _. I) (is_unset key) (pure rebuilt) _ u (λ _. k)
                λ _.
                  Ends-bind (λ _. I) (λ _. I) (λ _. I)
                    (wrapped "rebuild dispatcher after detaching link"
                      (execute env (Executor.rebuild_dispatcher_for_detach key link.id) u))
                    _
                    (Ends-wrapped (λ _. I) (λ _. I) "rebuild dispatcher after detaching link" _
                      (execute-Keeps env start P closed
                        (Executor.rebuild_dispatcher_for_detach key link.id) u k))
                    (λ _ t l. l))
            j

  pub detach_all_links-Keeps :
      (rebuilt : List Key) (links : List LinkRecord) (w : World)
      → I w
      → Keeps start P (detach_all_links env rebuilt links w)
  unfolding detach_all_links
  detach_all_links-Keeps rebuilt [] w i = i
  detach_all_links-Keeps rebuilt (link ∷ links) w i =
      go link.pin_path (λ keys. detach_all_links-Keeps keys links)
    where
      go :
          (o : Option Text)
          → ((keys : List Key) (v : World)
              → I v
              → Keeps start P (detach_all_links env keys links v))
          → let step : Exec World (List Key) = elim o [
            | none ↦ detach_all_links env rebuilt links
            | some path ↦
                detach_pinned env link path rebuilt >>= λ keys. detach_all_links env keys links
          ] in
            Keeps start P (step w)
      go none later = later rebuilt w i
      go (some path) later =
          Ends-bind (λ _. I) (λ _. I) (λ _. I) (detach_pinned env link path rebuilt w) _
            (detach_pinned-Keeps link path rebuilt w i) later

  remove_orphaned-Keeps :
      (names : List Text) (w : World) → I w → Keeps start P (remove_orphaned env names w)
  unfolding remove_orphaned
  remove_orphaned-Keeps [] w i = i
  remove_orphaned-Keeps (name ∷ names) w i =
      Ends-bind (λ _. I) (λ _. I) (λ _. I)
        (dropped
          (invoke env (World.remove_shared_map_pin (shared_map_pin env.base name)) (λ _. tt) w))
        _
        (Keeps-logged start P (λ _. I) _
          (invoke_keeps env start P closed
            (World.remove_shared_map_pin (shared_map_pin env.base name)) (λ _. tt) w tt i))
        (λ _ v j. remove_orphaned-Keeps names v j)

  pub cleanup_shared_map_pins-Keeps :
      (id : ℕ) (w : World) → I w → Keeps start P (cleanup_shared_map_pins env id w)
  unfolding cleanup_shared_map_pins
  cleanup_shared_map_pins-Keeps id w i =
      Ends-bind (λ _. I) (λ _. I) (λ _. I)
        (invoke env (World.delete_shared_map_pins id) (λ v. env.orphaned_of v id) w) _
        (invoke_keeps env start P closed (World.delete_shared_map_pins id) _ w tt i)
        remove_orphaned-Keeps

  pub gc_map_set_if_unused-Keeps :
      (id : ℕ) (dir : Text) (w : World) → I w → Keeps start P (gc_map_set_if_unused env id dir w)
  unfolding gc_map_set_if_unused
  gc_map_set_if_unused-Keeps id dir w i =
      Ends-bind (λ _. I) (λ _. I) (λ _. I)
        (wrapped "count map set users"
          (invoke env (World.count_map_set_users id) (λ v. env.users_of v id) w))
        _
        (Ends-wrapped (λ _. I) (λ _. I) "count map set users" _
          (invoke_keeps env start P closed (World.count_map_set_users id) _ w tt i))
        λ users v j.
          Ends-if (λ _. I) (λ _. I) (ltb 0 users) (pure tt) _ v (λ _. j)
            λ _.
              Ends-bind (λ _. I) (λ _. I) (λ _. I)
                (wrapped "remove map set pins" (invoke env (World.unload_pin dir) (λ _. tt) v)) _
                (Ends-wrapped (λ _. I) (λ _. I) "remove map set pins" _
                  (invoke_keeps env start P closed (World.unload_pin dir) _ v tt j))
                λ _ u k.
                  Ends-wrapped (λ _. I) (λ _. I) "delete map set" _
                    (invoke_keeps env start P closed (World.delete_map_set id) _ u tt k)

  should_remove_map_pins-Keeps :
      (id : ℕ) (w : World) → I w → Keeps start P (should_remove_map_pins env id w)
  unfolding should_remove_map_pins
  should_remove_map_pins-Keeps id w i =
      Ends-on_error (λ _. I) (λ _. I) (λ _. I) (λ _. I)
        (invoke env (World.map_set_exists id) (λ v. env.exists_of v id) w) _ _
        (invoke_keeps env start P closed (World.map_set_exists id) _ w tt i) (λ _ v j. j)
        (λ _ v j. j)

  remove_maps-Keeps :
      (dir : Text) (remove : Bool) (w : World) → I w → Keeps start P (remove_maps env dir remove w)
  remove_maps-Keeps dir remove w i =
      Ends-bind (λ _. I) (λ _. I) (λ _. I)
        ((if remove then logged (invoke_unit env (World.unload_pin dir)) else pure tt) w) _
        (Ends-if (λ _. I) (λ _. I) remove (logged (invoke_unit env (World.unload_pin dir)))
          (pure tt) w
          (λ _.
            Keeps-logged start P (λ _. I) _
              (invoke_keeps env start P closed (World.unload_pin dir) _ w tt i))
          (λ _. i))
        (λ _ v j. j)

  pub remove_unrecorded-Keeps :
      (p : ProgramRecord) (w : World) → I w → Keeps start P (remove_unrecorded env p w)
  unfolding remove_unrecorded
  remove_unrecorded-Keeps p w i =
      Ends-if (λ _. I) (λ _. I) (map_set_id p == p.program_id) _ (pure []) w
        (λ _.
          Ends-bind (λ _. I) (λ _. I) (λ _. I) (should_remove_map_pins env p.program_id w) _
            (should_remove_map_pins-Keeps p.program_id w i) (remove_maps-Keeps p.maps_dir))
        (λ _. i)
