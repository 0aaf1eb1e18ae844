-- ===== src/Links.antt =====
-- Links, their kinds and details (link.go).
use go_bpfman.Prelude.{ℕ, ℤ, Text, codes, Bool, true, false, List, [], Option, none, some, ◌∷◌}
use go_bpfman.Platform.{Labels}
use go_bpfman.Tcx.{TcxAttachOrder}

-- LinkKind
pub data LinkKind : Type 0 where
  tracepoint kprobe kretprobe uprobe uretprobe fentry fexit xdp tc tcx : LinkKind

-- TCDirection: the known values, and any other string.
pub data TcDirection : Type 0 where
  ingress egress : TcDirection
  other : Text → TcDirection

-- TCDirection.String
unfoldable pub direction_name : TcDirection → Text
direction_name ingress = codes "ingress"
direction_name egress = codes "egress"
direction_name (other s) = s

-- TCDirection.Valid
unfoldable pub valid_direction : TcDirection → Bool
valid_direction ingress = true
valid_direction egress = true
valid_direction (other _) = false

-- XDPDetails
pub record XdpDetails : Type 0 where
  pub interface : Text
  pub ifindex : ℕ
  pub priority : ℤ  -- int32
  pub position : ℕ  -- int32
  pub proceed_on : List ℤ
  pub netns : Text
  pub nsid : ℕ
  pub dispatcher_id : ℕ
  pub revision : ℕ

-- TCDetails
pub record TcDetails : Type 0 where
  pub interface : Text
  pub ifindex : ℕ
  pub direction : TcDirection
  pub priority : ℤ  -- int32
  pub position : ℕ  -- int32
  pub proceed_on : List ℤ
  pub netns : Text
  pub nsid : ℕ
  pub dispatcher_id : ℕ
  pub revision : ℕ

-- LinkDetails: one constructor for each concrete type, with the fields of the type.
pub data LinkDetails : Type 0 where
  tracepoint_details : (group name : Text) → LinkDetails
  kprobe_details : (fn_name : Text) (offset : ℕ) (retprobe : Bool) → LinkDetails
  uprobe_details :
      (target fn_name : Text) (offset : ℕ) (pid : ℤ) (retprobe : Bool) (container_pid : ℤ)
      → LinkDetails
  fentry_details : (fn_name : Text) → LinkDetails
  fexit_details : (fn_name : Text) → LinkDetails
  xdp_details : XdpDetails → LinkDetails
  tc_details : TcDetails → LinkDetails
  tcx_details :
      (interface : Text) (ifindex : ℕ) (direction : TcDirection) (priority : ℤ) (position : ℕ)
      (netns : Text) (nsid : ℕ)
      → LinkDetails

-- The `Kind` method of each details type.
unfoldable pub kind : LinkDetails → LinkKind
kind (tracepoint_details _ _) = tracepoint
kind (kprobe_details _ _ true) = kretprobe
kind (kprobe_details _ _ false) = kprobe
kind (uprobe_details _ _ _ _ true _) = uretprobe
kind (uprobe_details _ _ _ _ false _) = uprobe
kind (fentry_details _) = fentry
kind (fexit_details _) = fexit
kind (xdp_details _) = xdp
kind (tc_details _) = tc
kind (tcx_details _ _ _ _ _ _ _) = tcx

-- LinkRecord, without its creation time
pub record LinkRecord : Type 0 where
  pub id : ℕ
  pub program_id : ℕ
  pub kernel_link_id : Option ℕ
  pub link_kind : LinkKind
  pub pin_path : Option Text
  pub metadata : Labels
  pub details : LinkDetails

-- LinkStatus; `kernel` is the kernel's link type where the link was seen.
pub record LinkStatus : Type 0 where
  pub kernel : Option Text
  pub kernel_seen : Bool
  pub pin_present : Bool

-- Link
pub record Link : Type 0 where
  pub link_record : LinkRecord
  pub status : LinkStatus

-- AttachOutput
pub record AttachOutput : Type 0 where
  pub kernel_link_id : Option ℕ
  pub kernel_link : Option Text
  pub pin_path : Text

-- NewLinkPath
unfoldable pub new_link_path : Text → Option Text
new_link_path [] = none
new_link_path (c ∷ s) = some (c ∷ s)

-- LinkSpec
pub record LinkSpec : Type 0 where
  pub program_id : ℕ
  pub kernel_link_id : Option ℕ
  pub link_kind : LinkKind
  pub pin_path : Option Text
  pub details : LinkDetails
  pub metadata : Labels

-- The attach actions of the programs without a dispatcher (manager/action).
pub data KernelAttach : Type 0 where
  attach_tracepoint : (prog_pin group name pin_path : Text) → KernelAttach
  attach_kprobe :
      (prog_pin fn_name : Text) (offset : ℕ) (retprobe : Bool) (pin_path : Text) → KernelAttach
  attach_uprobe_local :
      (prog_pin target fn_name : Text) (offset : ℕ) (pid : ℤ) (retprobe : Bool) (pin_path : Text)
      → KernelAttach
  attach_uprobe_container :
      (prog_pin target fn_name : Text) (offset : ℕ) (pid : ℤ) (retprobe : Bool) (pin_path : Text)
      (container_pid : ℤ)
      → KernelAttach
  attach_fentry : (prog_pin fn_name pin_path : Text) → KernelAttach
  attach_fexit : (prog_pin fn_name pin_path : Text) → KernelAttach
  attach_tcx :
      (ifindex : ℕ) (direction prog_pin pin_path netns : Text) (order : TcxAttachOrder)
      → KernelAttach
