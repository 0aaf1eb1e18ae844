-- ===== src/World.antt =====
-- What lies outside the manager: the kernel adapter, the store and the file system, as calls whose
-- answers come from an environment. The world is the log of the calls made, newest first.
-- The environment may answer each call as it likes, by all that was called before.
pub mod Pins
pub mod Triples
pub mod Adds
use go_bpfman.Prelude.{ℕ, Text, Bool, List, [], ◌∷◌, Option, none, some}
use go_bpfman.Errors.{Err}
use go_bpfman.Exec.{Outcome, ok, err, Exec}
use go_bpfman.Links.{TcDirection, AttachOutput}
use go_bpfman.Platform.{Key, DispatcherMember, DispatcherSnapshot, DispatcherSnapshotSpec}
use go_bpfman.Dispatcher.Config.{XdpConfig, TcConfig}

-- XDPExtensionAttachSpec and TCExtensionAttachSpec, which have the same fields
pub record ExtensionAttachSpec : Type 0 where
  pub dispatcher_pin_path : Text
  pub prog_pin_path : Text
  pub program_name : Text
  pub position : ℕ
  pub link_pin_path : Text

pub data Call : Type 0 where
  -- netns
  nsid : (netns_path : Text) → Call
  stat : (path : Text) → Call
  -- platform.Store
  get_snapshot : Key → Call
  replace_snapshot : DispatcherSnapshotSpec → Call
  delete_snapshot : Key → Call
  -- platform.KernelOperations
  load_xdp : XdpConfig → (path : Text) → Call
  load_tc : TcConfig → (path : Text) → Call
  attach_xdp : ExtensionAttachSpec → Call
  attach_tc : ExtensionAttachSpec → Call
  link_info : (path : Text) → Call
  create_xdp_link : (prog : Text) (ifindex : ℕ) (link : Text) (netns : Text) → Call
  update_xdp_link : (link prog : Text) → Call
  create_tc_filter :
      (prog : Text) (ifindex : ℕ) (ifname : Text) (direction : TcDirection) (netns : Text)
      (handle : ℕ)
      → Call
  detach_tc_filter :
      (ifindex : ℕ) (ifname : Text) (parent priority handle : ℕ) (netns : Text) → Call
  remove_clsact : (ifindex : ℕ) (ifname netns : Text) → Call
  detach_link : (path : Text) → Call
  remove_pin : (path : Text) → Call
  -- fs.BPFFS
  remove_rev_dir : (path : Text) → Call

pub data Event : Type 0 where
  done : Call → Event
  failed : Call → Err → Event

abbrev pub Log : Type 0
Log = List Event

-- TCFilterResult
pub record TcFilter : Type 0 where
  pub dispatcher_id : ℕ
  pub handle : ℕ  -- uint32
  pub priority : ℕ  -- uint16

pub record Env : Type 0 where
  -- The error of a call, or none where it succeeds.
  pub fails : Log → Call → Option Err
  -- What a successful call returns.
  pub nsid_of : Log → Text → ℕ
  pub netns_missing : Log → Text → Bool
  pub snapshot_of : Log → Key → DispatcherSnapshot
  pub completed_of : Log → DispatcherSnapshotSpec → List DispatcherMember
  pub program_id_of : Log → Text → ℕ
  pub attach_output_of : Log → ExtensionAttachSpec → AttachOutput
  pub xdp_link_id_of : Log → Text → ℕ
  pub filter_of : Log → Text → TcFilter
  -- Manager construction: the base directory of the layout
  pub base : Text

module _ (env : Env) where
  -- A call, with its event logged; `value` is what it returns on success.
  unfoldable pub invoke : {A : Type 0} → Call → (Log → A) → Exec Log A
  invoke c value log = elim (env.fails log c) [
    | none ↦ (ok (value log), done c ∷ log)
    | some e ↦ (err e, failed c e ∷ log)
  ]

  abbrev pub invoke_unit : Call → Exec Log (Unit {0})
  invoke_unit c = invoke c (λ _. tt)
