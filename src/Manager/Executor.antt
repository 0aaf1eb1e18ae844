-- ===== src/Manager/Executor.antt =====
-- The executor (manager/executor.go): the actions of detaching, unloading and loading.
pub mod Keeps
use go_bpfman.Prelude.{ℕ, Text}
use go_bpfman.Exec.{Exec}
use go_bpfman.Platform.{Key}
use go_bpfman.Rebuild.Detach
use go_bpfman.Rebuild.Empty.{remove_dispatcher_if_empty}
use go_bpfman.Manager.World
use go_bpfman.Manager.World.{World, ManagerEnv, invoke_unit, rebuilding}

-- action.Action
pub data Action : Type 0 where
  detach_link : (pin_path : Text) → Action
  delete_link : (link_id : ℕ) → Action
  rebuild_dispatcher_for_detach : (key : Key) (exclude_link_id : ℕ) → Action
  remove_dispatcher : (key : Key) → Action
  unload_program : (pin_path : Text) → Action
  remove_maps_pins : (pin_path : Text) → Action
  publish_bytecode : (program_id : ℕ) (source_path : Text) → Action
  remove_program_dir : (path : Text) → Action

-- Execute
unfoldable pub execute : ManagerEnv → Action → Exec World (Unit {0})
execute env (Action.detach_link path) = invoke_unit env (World.detach_link path)
execute env (Action.delete_link id) = invoke_unit env (World.delete_link id)
execute env (Action.rebuild_dispatcher_for_detach key id) =
    rebuilding env (World.rebuild_for_detach key id)
      λ dispatchers. Detach.rebuild_dispatcher_for_detach dispatchers key id
execute env (Action.remove_dispatcher key) =
    rebuilding env (World.remove_dispatcher key)
      λ dispatchers. remove_dispatcher_if_empty dispatchers key
execute env (Action.unload_program path) = invoke_unit env (World.unload_pin path)
execute env (Action.remove_maps_pins path) = invoke_unit env (World.unload_pin path)
execute env (Action.publish_bytecode id path) = invoke_unit env (World.publish_bytecode id path)
execute env (Action.remove_program_dir path) = invoke_unit env (World.remove_program_dir path)
