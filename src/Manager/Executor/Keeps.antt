-- ===== src/Manager/Executor/Keeps.antt =====
-- The actions of the executor keep what calls other than deletions of programs' records keep.
use go_bpfman.Prelude.{◌∷◌}
use go_bpfman.Errors.{Err}
use go_bpfman.Exec.{Outcome, dropped}
use go_bpfman.Exec.Ends.{Ends, Ends-dropped}
use go_bpfman.Manager.World.{Event, Trace, World, ManagerEnv}
use go_bpfman.Manager.World
use go_bpfman.Manager.World.Since.{call_of, IsOther, Since, invoke_keeps, rebuilding_keeps}
use go_bpfman.Manager.Executor.{Action, execute}

module _ (start : World) (P : Trace → Type 0) where
  -- What holds before the step holds after it, however it ends.
  abbrev pub Keeps : {A : Type 0} → Outcome A × World → Type 0
  Keeps = Ends (λ _. Since start P) (λ _. Since start P)

  -- The same of a step whose error is logged.
  pub Keeps-logged :
      {A : Type 0} (E : Err → World → Type 0) (r : Outcome A × World)
      → Keeps r
      → Ends E (λ _. Since start P) (dropped r)
  Keeps-logged E r h =
      Ends-dropped (λ _. Since start P) E (λ _. Since start P) (Since start P) r h (λ e w i. i)
        (λ a w i. i)

module _ (env : ManagerEnv) (start : World) (P : Trace → Type 0)
    (closed : (ev : Event) (new : Trace) → IsOther (call_of ev) → P new → P (ev ∷ new)) where
  pub execute-Keeps : (a : Action) (w : World) → Since start P w → Keeps start P (execute env a w)
  unfolding execute
  execute-Keeps (Action.detach_link p) w i =
      invoke_keeps env start P closed (World.detach_link p) (λ _. tt) w tt i
  execute-Keeps (Action.delete_link id) w i =
      invoke_keeps env start P closed (World.delete_link id) (λ _. tt) w tt i
  execute-Keeps (Action.rebuild_dispatcher_for_detach key id) w i =
      rebuilding_keeps env start P closed (World.rebuild_for_detach key id) _ w tt i
  execute-Keeps (Action.remove_dispatcher key) w i =
      rebuilding_keeps env start P closed (World.remove_dispatcher key) _ w tt i
  execute-Keeps (Action.unload_program p) w i =
      invoke_keeps env start P closed (World.unload_pin p) (λ _. tt) w tt i
  execute-Keeps (Action.remove_maps_pins p) w i =
      invoke_keeps env start P closed (World.unload_pin p) (λ _. tt) w tt i
  execute-Keeps (Action.publish_bytecode id p) w i =
      invoke_keeps env start P closed (World.publish_bytecode id p) (λ _. tt) w tt i
  execute-Keeps (Action.remove_program_dir p) w i =
      invoke_keeps env start P closed (World.remove_program_dir p) (λ _. tt) w tt i
