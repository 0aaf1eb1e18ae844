-- ===== src/Manager/Load/Cleanup.antt =====
-- The cleanup of a batch that failed tries to remove the pin of every program that it loaded.
use go_bpfman.Prelude.{Text, false, List, [], ◌∷◌, ◌++◌, map}
use go_bpfman.Errors.{Err, wrap}
use go_bpfman.Exec.{wrapped, dropped}
use go_bpfman.Exec.Ends.{Ends, Ends-bind, Ends-wrapped, Ends-weaken}
use go_bpfman.Manager.World.{done, failed, World, ManagerEnv, ProgramRecord, invoke, unload_pin}
use go_bpfman.Manager.World.Since.{Since, Since-cons, invoke-Ends}
use go_bpfman.Manager.Executor.Keeps.{Keeps-logged}
use go_bpfman.Manager.Unload.{unload, after_unload, cleanup_shared_map_pins, remove_unrecorded}
use go_bpfman.Manager.Unload.Keeps.{cleanup_shared_map_pins-Keeps, remove_unrecorded-Keeps}
use go_bpfman.Manager.Unload.Contract.{last_steps}
use go_bpfman.Manager.Load.{Loaded, cleanup_loaded}
use go_bpfman.Manager.Load.Left.{Within, Within-closed, Within-removed}

abbrev pub pins_of : List Loaded → List Text
pins_of loaded = map (λ p. p.saved.pin_path) loaded

module _ (env : ManagerEnv) (start : World) where
  -- No pin is left but these.
  abbrev pub AtMost : List Text → World → Type 0
  AtMost pins = Since start (Within env start pins)

  after_unload-AtMost :
      (p : ProgramRecord) (pins : List Text) (w : World)
      → AtMost pins w
      → Ends (λ _. AtMost pins) (λ _. AtMost pins) (after_unload env p [] false [] w)
  unfolding after_unload
  after_unload-AtMost p pins w s =
      let E : Err → World → Type 0 = λ _. AtMost pins in
      let closed = Within-closed env start pins in
      Ends-bind E (λ _. AtMost pins) (λ _. AtMost pins)
        (dropped (cleanup_shared_map_pins env p.program_id w)) _
        (Keeps-logged start (Within env start pins) E _
          (cleanup_shared_map_pins-Keeps env start (Within env start pins) closed p.program_id w s))
        λ _ v i.
          Ends-bind E (λ _. AtMost pins) (λ _. AtMost pins) (remove_unrecorded env p v) _
            (remove_unrecorded-Keeps env start (Within env start pins) closed p v i)
            λ errs u j.
              Ends-weaken _ E _ (λ _. AtMost pins) _
                (last_steps env p start [] [] errs (Within env start pins) closed u j)
                (λ _ t h. h.1) (λ _ t h. h.1)

  unload-AtMost :
      (p : ProgramRecord) (pins : List Text) (w : World)
      → AtMost (p.pin_path ∷ pins) w
      → Ends (λ _. AtMost pins) (λ _. AtMost pins) (unload env p [] false w)
  unfolding unload
  unload-AtMost p pins w s =
      let E : Err → World → Type 0 = λ _. AtMost pins in
      let P = Within env start (p.pin_path ∷ pins) in
      Ends-bind E (λ _. AtMost pins) (λ _. AtMost pins)
        (wrapped "unload program" (invoke env (unload_pin p.pin_path) (λ _. tt) w)) _
        (Ends-wrapped E (λ _. AtMost pins) "unload program" _
          (invoke-Ends env (λ e. E (wrap "unload program" e)) (λ _. AtMost pins)
            (unload_pin p.pin_path) (λ _. tt) w
            (Since-cons start P _ (done (unload_pin p.pin_path)) w w.log
              (λ new h. (Within-removed env start p.pin_path pins new h).0) s)
            (λ e.
              Since-cons start P _ (failed (unload_pin p.pin_path) e) w w.log
                (λ new h. (Within-removed env start p.pin_path pins new h).1 e) s)))
        (λ _ v i. after_unload-AtMost p pins v i)

  pub cleanup_loaded-AtMost :
      (loaded : List Loaded) (pins : List Text) (w : World)
      → AtMost (pins_of loaded ++ pins) w
      → Ends (λ _ _. ⊥) (λ _. AtMost pins) (cleanup_loaded env loaded w)
  unfolding cleanup_loaded
  cleanup_loaded-AtMost [] pins w s = s
  cleanup_loaded-AtMost (p ∷ loaded) pins w s =
      Ends-bind (λ _ _. ⊥) (λ _. AtMost (pins_of loaded ++ pins)) (λ _. AtMost pins)
        (dropped (unload env p.saved [] false w)) _
        (Keeps-logged start (Within env start (pins_of loaded ++ pins)) (λ _ _. ⊥) _
          (unload-AtMost p.saved (pins_of loaded ++ pins) w s))
        (λ _ v i. cleanup_loaded-AtMost loaded pins v i)
