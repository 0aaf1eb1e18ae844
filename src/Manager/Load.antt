-- ===== src/Manager/Load.antt =====
-- Loading a batch of programs (manager/load.go, with inspect/mapset.go): each program by a plan of
-- its own, and then their records in one transaction.
pub mod Left
pub mod Cleanup
pub mod Plan
pub mod Total
pub mod Saved
pub mod Rollback
use mathlib.Core.List.{reverse}
use go_bpfman.Prelude.{
  ℕ, Text, String, codes, false, List, [], ◌∷◌, ◌++◌, map, Option, none, some, ◌==◌, if◌then◌else◌,
}
use go_bpfman.Errors.{Err, plain, is_not_found}
use go_bpfman.Exec.{Outcome, ok, Exec, pure, fail, ◌>>=◌, ◌>>◌, wrapping, logged, on_error}
use go_bpfman.Layout.{program_dir, prog_pin_path, map_pin_dir, program_bytecode_path}
use go_bpfman.Operation.{Node, produce, do_node, Bindings, get, build, run}
use go_bpfman.Programs.{LoadSpec, no_spec, has_image_source, is_gpl_compatible}
use go_bpfman.Programs.Load.{LoadOpts}
use go_bpfman.Manager.World.{
  World, ManagerEnv, ProgramRecord, LoadOutput, KernelMap, invoke, invoke_unit, load_program,
  get_map, save_program, save_shared_map_pins, list_records,
}
use go_bpfman.Manager.World
use go_bpfman.Manager.Executor.{Action, execute}
use go_bpfman.Manager.Executor
use go_bpfman.Manager.Detach.{lift}
use go_bpfman.Manager.Unload.{unload}
use go_bpfman.Manager.Transaction.{run_in_transaction}
use go_bpfman.Manager.Reap.{Programs, sort_ids}

-- buildProgramRecord, without the time; `base` is the base directory of the runtime.
unfoldable pub build_program_record : Text → LoadSpec → LoadOutput → LoadOpts → ProgramRecord
unfolding is_gpl_compatible program_bytecode_path
build_program_record base spec loaded opts = record {
  program_id = loaded.program_id;
  pin_path = loaded.pin_path;
  maps_dir = loaded.maps_dir;
  map_owner_id = if spec.map_owner_id == 0 then none else some spec.map_owner_id;
  load = record no_spec {
    object_path = program_bytecode_path base loaded.program_id;
    source_path = if has_image_source spec then [] else spec.object_path;
    program_name = spec.program_name;
    program_type = loaded.inferred_type;
    global_data = spec.global_data;
    image_url = spec.image_url;
    image_digest = spec.image_digest;
    image_pull_policy = spec.image_pull_policy;
    attach_func = spec.attach_func;
  };
  license = loaded.license;
  gpl_compatible = is_gpl_compatible loaded.license;
  name = spec.program_name;
  owner = opts.owner;
  metadata = opts.user_metadata;
}

-- bpfman.Program, and the item of the batch beside it.
pub record Loaded : Type 0 where
  pub output : LoadOutput
  pub spec : LoadSpec
  pub saved : ProgramRecord
  pub prog_pin : Text
  pub map_dir : Text
  pub bytecode : Text
  pub maps : List KernelMap
  pub map_used_by : List ℕ

-- mapSetID of a key and its record
unfoldable pub set_id : ℕ → ProgramRecord → ℕ
set_id id r = elim r.map_owner_id [ none ↦ id | some owner ↦ owner ]

-- bySet[set], as the records are visited
unfoldable pub members_of : ℕ → Programs → List ℕ
unfolding set_id
members_of set [] = []
members_of set ((id, r) ∷ records) =
    let rest = members_of set records in if set_id id r == set then id ∷ rest else rest

member_set : Programs → ℕ → Option ℕ
unfolding set_id
member_set [] a = none
member_set ((id, r) ∷ records) a =
    let rest = member_set records a in if id == a then some (set_id id r) else rest

-- MapSetMembers, at a key; what is no key has no members.
unfoldable pub map_set_members : Programs → ℕ → List ℕ
unfolding member_set members_of sort_ids
map_set_members records a = elim (member_set records a) [
  | none ↦ []
  | some set ↦ sort_ids (members_of set records)
]

abbrev pub loaded_key : String
loaded_key = "loaded"

module _ (env : ManagerEnv) where
  -- The undo of the load.
  unfoldable pub unload_actions : Bindings LoadOutput → Outcome (List Action)
  unfolding get
  unload_actions b = elim (get some loaded_key b) [
    | Outcome.ok l ↦
        ok (Executor.unload_program l.pin_path ∷ Executor.remove_maps_pins l.maps_dir ∷ [])
    | Outcome.err e ↦ Outcome.err e
    | Outcome.panic m ↦ Outcome.panic m
  ]

  -- The undo of the publication.
  unfoldable pub unpublish_actions : Bindings LoadOutput → Outcome (List Action)
  unfolding get
  unpublish_actions b = elim (get some loaded_key b) [
    | Outcome.ok l ↦ ok (Executor.remove_program_dir (program_dir env.base l.program_id) ∷ [])
    | Outcome.err e ↦ Outcome.err e
    | Outcome.panic m ↦ Outcome.panic m
  ]

  -- The nodes of the plan. The provenance that is published with the bytecode is left out.
  unfoldable pub load_nodes : LoadSpec → List (Node World Action LoadOutput)
  unfolding unload_actions unpublish_actions
  load_nodes spec =
      produce loaded_key "program"
        (λ _.
          wrapping "load program"
            (invoke env (load_program spec) (λ w. env.output_of w.trace spec)))
        (some unload_actions)
      ∷ do_node "fs-publish" "program"
          (λ b. do
            l ← lift (get some loaded_key b)
            execute env (Executor.publish_bytecode l.program_id spec.object_path))
          (some unpublish_actions)
      ∷ []

  -- loadPlan, run by operation.Run
  unfoldable pub run_load_plan : LoadSpec → Exec World (Bindings LoadOutput)
  unfolding load_nodes
  run_load_plan spec = lift (build (load_nodes spec)) >>= run (execute env)

  -- The kernel's maps of a program; those whose lookup fails are left out.
  unfoldable pub lookup_maps : List ℕ → List KernelMap → Exec World (List KernelMap)
  lookup_maps [] maps = pure maps
  lookup_maps (id ∷ ids) maps =
      on_error (invoke env (get_map id) (λ w. env.map_of w id)) (λ _. lookup_maps ids maps)
        (λ m. lookup_maps ids (maps ++ m ∷ []))

  -- The item that a program adds to the batch.
  unfoldable pub loaded_item : LoadOpts → LoadSpec → LoadOutput → List KernelMap → Loaded
  unfolding build_program_record set_id prog_pin_path map_pin_dir program_bytecode_path
  loaded_item opts spec lo maps =
      let saved = build_program_record env.base spec lo opts in
      record {
        output = lo;
        spec = spec;
        saved = saved;
        prog_pin = prog_pin_path env.base lo.program_id;
        map_dir = map_pin_dir env.base (set_id lo.program_id saved);
        bytecode = program_bytecode_path env.base lo.program_id;
        maps = maps;
        map_used_by = [];
      }

  -- cleanupLoaded, on the programs from the last to the first
  unfoldable pub cleanup_loaded : List Loaded → Exec World (Unit {0})
  unfolding unload
  cleanup_loaded [] = pure tt
  cleanup_loaded (p ∷ loaded) = logged (unload env p.saved [] false) >> cleanup_loaded loaded

  -- `cleanupLoaded(); return nil, err`
  unfoldable pub abandoned : {A : Type 0} → List Loaded → Err → Exec World A
  unfolding cleanup_loaded
  abandoned loaded e = cleanup_loaded (reverse loaded) >> fail e

  -- The loop of loadBody, with the programs loaded so far.
  unfoldable pub load_each : LoadOpts → List LoadSpec → List Loaded → Exec World (List Loaded)
  unfolding run_load_plan lookup_maps loaded_item abandoned get
  load_each opts [] loaded = pure loaded
  load_each opts (spec ∷ specs) loaded = on_error (run_load_plan spec) (abandoned loaded) λ b. do
    lo ← lift (get some loaded_key b)
    maps ← lookup_maps lo.map_ids []
    load_each opts specs (loaded ++ loaded_item opts spec lo maps ∷ [])

  unfoldable pub save_shared : ℕ → List Text → Exec World (Unit {0})
  save_shared id [] = pure tt
  save_shared id (name ∷ names) =
      wrapping "save shared map pins for program"
        (invoke_unit env (save_shared_map_pins id (name ∷ names)))

  -- One item in the transaction.
  unfoldable pub save_item : Loaded → Exec World (Unit {0})
  unfolding save_shared
  save_item it =
      let id = it.output.program_id in
      let save : Exec World (Unit {0}) =
        wrapping "save program" (invoke_unit env (save_program id it.saved))
        >> save_shared id it.output.shared_map_names in
      on_error (invoke_unit env (World.get_program id))
        (λ e. if is_not_found e then save else wrapping "check existing program" (fail e))
        (λ _. fail (plain "program already exists in database"))

  unfoldable pub save_items : List Loaded → Exec World (Unit {0})
  unfolding save_item
  save_items [] = pure tt
  save_items (it ∷ items) = save_item it >> save_items items

  -- The callback of the transaction, with the programs it completes.
  unfoldable pub save_batch : List Loaded → Exec World (List Loaded)
  unfolding save_items map_set_members
  save_batch loaded = do
    save_items loaded
    records ←
        wrapping "list programs for map users" (invoke env list_records (λ w. env.records_of w))
    pure (
        map {A = Loaded} {B = Loaded}
          (λ p. record p { map_used_by = map_set_members records p.saved.program_id }) loaded)

  -- loadBody
  unfoldable pub load_body : LoadOpts → List LoadSpec → Exec World (List Loaded)
  unfolding load_each save_batch run_in_transaction abandoned
  load_body opts specs = do
    loaded ← load_each opts specs []
    on_error (run_in_transaction env env.tx_retry_backoffs (save_batch loaded)) (abandoned loaded)
        pure
