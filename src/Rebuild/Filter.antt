-- ===== src/Rebuild/Filter.antt =====
-- The TC filter of a dispatcher: what a rebuild and a teardown read from the stored snapshot
-- (manager/executor_dispatcher.go) and the handles of the clsact hooks (dispatcher/types.go).
use go_bpfman.Prelude.{
  ℕ, Text, Bool, not, ◌&&◌, ◌==◌, is_some, Option, none, some, List, [], ◌∷◌, text_eq,
  if◌then◌else◌,
}
use go_bpfman.Platform.{
  DispatcherType, unset, xdp, tc_ingress, tc_egress, DispatcherMember, DispatcherSnapshot,
}

-- TCParentHandle: netlink.HANDLE_MIN_INGRESS is 0xFFFFFFF2, netlink.HANDLE_MIN_EGRESS 0xFFFFFFF3.
unfoldable pub tc_parent_handle : DispatcherType → ℕ
tc_parent_handle unset = 0
tc_parent_handle xdp = 0
tc_parent_handle tc_ingress = 4294967282
tc_parent_handle tc_egress = 4294967283

-- oldPriority and oldHandle; zero stands for a filter that is not recorded.
pub record OldFilter : Type 0 where
  pub priority : ℕ  -- uint16
  pub handle : ℕ  -- uint32

recorded : Option ℕ → Option ℕ → OldFilter
recorded none _ = record { priority = 0; handle = 0 }
recorded (some p) none = record { priority = p; handle = 0 }
recorded (some p) (some h) = record { priority = p; handle = h }

unfoldable pub old_filter : Option DispatcherSnapshot → OldFilter
unfolding recorded
old_filter none = record { priority = 0; handle = 0 }
old_filter (some snap) = recorded snap.runtime.filter_priority snap.runtime.filter_handle

-- `!firstAttach && oldHandle != 0`
abbrev pub has_old_filter : Option DispatcherSnapshot → Bool
has_old_filter snap = is_some snap && not ((old_filter snap).handle == 0)

first_ifname : List DispatcherMember → Text
first_ifname [] = []
first_ifname (m ∷ members) =
    let rest = first_ifname members in if text_eq m.ifname [] then rest else m.ifname

-- snapInterfaceName
unfoldable pub snap_interface_name : DispatcherSnapshot → Text
unfolding first_ifname
snap_interface_name snap = first_ifname snap.members
