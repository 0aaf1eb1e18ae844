-- ===== src/Manager/World.antt =====
-- What the manager's operations call: the store, the kernel adapter, the file system, and the
-- dispatcher rebuilds of its executor. The trace holds the calls made, newest first; the log beside
-- it holds the calls that the rebuilds make. The environment may answer each call as it likes, by
-- all that was called before.
pub mod Since
use go_bpfman.Prelude.{ℕ, Text, Bool, List, [], ◌∷◌, Option, none, some}
use go_bpfman.Errors.{Err}
use go_bpfman.Exec.{Outcome, ok, err, panic, Exec}
use go_bpfman.Platform.{Key}
use go_bpfman.Links.{LinkRecord, LinkSpec, KernelAttach, AttachOutput}
use go_bpfman.Programs.{LoadSpec, ProgramType, Metadata}
use go_bpfman.Tcx.{TcxLinkInfo}
use go_bpfman.World.{Log, Env}

-- ProgramRecord, with the fields of ProgramHandles and of ProgramMeta, and without its times
pub record ProgramRecord : Type 0 where
  pub program_id : ℕ
  pub pin_path : Text
  pub maps_dir : Text
  pub map_owner_id : Option ℕ
  pub load : LoadSpec
  pub license : Text
  pub gpl_compatible : Bool
  pub name : Text
  pub owner : Text
  pub metadata : Metadata

-- A program of `ListPrograms`, with the fields that a deletion reads.
pub record ListedProgram : Type 0 where
  pub program_id : ℕ
  pub map_owner_id : Option ℕ

-- LoadOutput, with the fields of kernel.Program that a load reads
pub record LoadOutput : Type 0 where
  pub pin_path : Text
  pub maps_dir : Text
  pub program_id : ℕ
  pub map_ids : List ℕ
  pub license : Text
  pub inferred_type : ProgramType
  pub shared_map_names : List Text

-- kernel.Map, of which a load reads nothing
pub record KernelMap : Type 0 where
  pub id : ℕ
  pub name : Text

pub data Call : Type 0 where
  -- platform.Store
  get_program : (id : ℕ) → Call
  get_link : (id : ℕ) → Call
  list_links_by_program : (id : ℕ) → Call
  delete_link : (id : ℕ) → Call
  create_link : LinkSpec → Call
  list_tcx_links : (nsid ifindex : ℕ) (direction : Text) → Call
  create_pending_link : LinkSpec → (links_dir : Text) → Call
  finalise_link : (id : ℕ) (kernel_link_id : Option ℕ) → Call
  delete_program : (id : ℕ) → Call
  delete_shared_map_pins : (program_id : ℕ) → Call
  map_set_exists : (id : ℕ) → Call
  count_map_set_users : (id : ℕ) → Call
  delete_map_set : (id : ℕ) → Call
  list_records : Call  -- Store.List
  save_program : (id : ℕ) → ProgramRecord → Call
  save_shared_map_pins : (program_id : ℕ) (names : List Text) → Call
  -- the transactions of the store, and the pause before another attempt
  begin_transaction : Call
  commit : Call
  rollback : Call
  wait_busy : (backoff : ℕ) → Call
  -- platform.KernelOperations
  kernel_program : (id : ℕ) → Call
  attach : KernelAttach → Call
  list_tracepoints : Call
  interface_by_name : (name netns : Text) → Call
  -- netns.NSID
  nsid : (netns : Text) → Call
  detach_link : (path : Text) → Call
  unload_pin : (path : Text) → Call
  load_program : LoadSpec → Call
  get_map : (id : ℕ) → Call
  kernel_programs : Call  -- the whole enumeration, up to its first error
  -- fs
  remove_shared_map_pin : (path : Text) → Call
  remove_program_dir : (path : Text) → Call
  publish_bytecode : (program_id : ℕ) (source_path : Text) → Call
  -- Manager.ListPrograms, which reads only
  list_programs : Call
  -- the executor's rebuildDispatcherForDetach and removeDispatcherIfEmpty
  rebuild_for_detach : Key → (exclude_link_id : ℕ) → Call
  remove_dispatcher : Key → Call

pub data Event : Type 0 where
  done : Call → Event
  failed : Call → Err → Event
  panicked : Call → Event

abbrev pub Trace : Type 0
Trace = List Event

pub record World : Type 0 where
  pub trace : Trace
  pub log : Log

pub record ManagerEnv : Type 0 where
  -- The error of a call, or none where it succeeds.
  pub fails : World → Call → Option Err
  -- What a successful call returns.
  pub program_of : World → ℕ → ProgramRecord
  pub link_of : World → ℕ → LinkRecord
  pub links_of : World → ℕ → List LinkRecord
  pub programs_of : World → List ListedProgram
  pub orphaned_of : World → ℕ → List Text
  pub exists_of : World → ℕ → Bool
  pub users_of : World → ℕ → ℕ
  pub records_of : World → List (ℕ × ProgramRecord)
  pub kernel_ids_of : World → List ℕ
  -- What a load returns, by the calls made before it.
  pub output_of : Trace → LoadSpec → LoadOutput
  pub map_of : World → ℕ → KernelMap
  pub pending_of : World → LinkSpec → LinkRecord
  pub finalised_of : World → ℕ → Option ℕ → LinkRecord
  pub attached_of : World → KernelAttach → AttachOutput
  pub tracepoints_of : World → List Text
  pub created_of : World → LinkSpec → LinkRecord
  pub tcx_links_of : World → ℕ → ℕ → Text → List TcxLinkInfo
  pub ifindex_of : World → Text → Text → ℕ
  pub nsid_of : World → Text → ℕ
  -- errors.Is(err, os.ErrNotExist)
  pub is_not_exist : Err → Bool
  -- isBusyError, and the pauses before further attempts at a transaction.
  pub is_busy : Err → Bool
  pub tx_retry_backoffs : List ℕ
  -- How the rebuilds find the world.
  pub dispatchers : World → Env
  -- The order in which a range over a map visits its keys.
  pub order : World → List Key → List Key
  -- The base directory of the layout.
  pub base : Text

abbrev pub event_of : Call → Outcome (Unit {0}) → Event
event_of c (ok _) = done c
event_of c (err e) = failed c e
event_of c (panic m) = panicked c

module _ (env : ManagerEnv) where
  -- A call, with its event on the trace; `value` is what it returns on success.
  unfoldable pub invoke : {A : Type 0} → Call → (World → A) → Exec World A
  invoke c value w = elim (env.fails w c) [
    | none ↦ (ok (value w), record w { trace = done c ∷ w.trace })
    | some e ↦ (err e, record w { trace = failed c e ∷ w.trace })
  ]

  abbrev pub invoke_unit : Call → Exec World (Unit {0})
  invoke_unit c = invoke c (λ _. tt)

  -- A rebuild, which runs on the log.
  unfoldable pub rebuilding : Call → (Env → Exec Log (Unit {0})) → Exec World (Unit {0})
  rebuilding c m w =
      let (r, log) = m (env.dispatchers w) w.log in
      (r, record { trace = event_of c r ∷ w.trace; log = log })
