-- ===== src/Platform.antt =====
-- The values that the manager, the store and the kernel adapter exchange: dispatcher types and keys
-- (dispatcher/types.go, dispatcher/state.go), snapshots (platform/dispatcher_types.go).
-- A Go string is a `Text`, a pointer an `Option`, a map of labels an association list.
use go_bpfman.Prelude.{ℕ, ℤ, Text, Bool, true, false, List, Option}

-- DispatcherType; `unset` is the zero value, which the code uses as a sentinel.
pub data DispatcherType : Type 0 where
  unset xdp tc_ingress tc_egress : DispatcherType

unfoldable pub dispatcher_type_eq : DispatcherType → DispatcherType → Bool
dispatcher_type_eq unset unset = true
dispatcher_type_eq xdp xdp = true
dispatcher_type_eq tc_ingress tc_ingress = true
dispatcher_type_eq tc_egress tc_egress = true
dispatcher_type_eq _ _ = false

-- dispatcher.Key
pub record Key : Type 0 where
  pub typ : DispatcherType
  pub nsid : ℕ  -- uint64
  pub ifindex : ℕ  -- uint32

abbrev pub Labels : Type 0
Labels = List (Text × Text)

-- DispatcherMember
pub record DispatcherMember : Type 0 where
  pub program_id : ℕ
  pub program_name : Text
  pub prog_pin_path : Text
  pub link_id : ℕ
  pub kernel_link_id : Option ℕ
  pub link_pin_path : Text
  pub position : ℕ
  pub priority : ℤ
  pub proceed_on : ℕ  -- uint32
  pub ifname : Text
  pub metadata : Labels

-- DispatcherMemberSpec
pub record DispatcherMemberSpec : Type 0 where
  pub existing_link_id : Option ℕ
  pub program_id : ℕ
  pub program_name : Text
  pub prog_pin_path : Text
  pub kernel_link_id : Option ℕ
  pub link_pin_path : Text
  pub position : ℕ
  pub priority : ℤ
  pub proceed_on : ℕ
  pub ifname : Text
  pub metadata : Labels

-- DispatcherRuntime
pub record DispatcherRuntime : Type 0 where
  pub program_id : ℕ
  pub kernel_link_id : Option ℕ
  pub filter_priority : Option ℕ  -- *uint16
  pub filter_handle : Option ℕ  -- *uint32
  pub netns_path : Text

-- DispatcherSnapshot
pub record DispatcherSnapshot : Type 0 where
  pub key : Key
  pub revision : ℕ  -- uint32
  pub runtime : DispatcherRuntime
  pub members : List DispatcherMember

-- DispatcherSnapshotSpec
pub record DispatcherSnapshotSpec : Type 0 where
  pub key : Key
  pub revision : ℕ
  pub runtime : DispatcherRuntime
  pub members : List DispatcherMemberSpec
