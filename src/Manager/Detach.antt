-- ===== src/Manager/Detach.antt =====
-- Detaching a link (manager/detach.go). The target of a node only names it in the logs, and is left
-- empty.
pub mod Plan
pub mod Keeps
pub mod Total
use go_bpfman.Prelude.{
  ℕ, Text, Bool, true, false, ◌&&◌, ◌||◌, not, List, [], ◌∷◌, ◌++◌, Option, none, some, ◌==◌,
  if◌then◌else◌,
}
use go_bpfman.Errors.{plain}
use go_bpfman.Exec.{Outcome, ok, err, panic, Exec, pure, ◌>>=◌, ◌>>◌, wrapping, logged}
use go_bpfman.Platform.{DispatcherType, unset, xdp, tc_ingress, tc_egress, dispatcher_type_eq, Key}
use go_bpfman.Links.{
  TcDirection, ingress, egress, other, LinkKind, LinkDetails, tracepoint_details, kprobe_details,
  uprobe_details, fentry_details, fexit_details, xdp_details, tc_details, tcx_details, LinkRecord,
  TcDetails, XdpDetails,
}
use go_bpfman.Links
use go_bpfman.Operation.{Node, do_action, build, run0}
use go_bpfman.Manager.World.{World, ManagerEnv}
use go_bpfman.Manager.Executor.{Action, execute}
use go_bpfman.Manager.Executor
use go_bpfman.Manager.Lookup.{get_link}

-- The key of a link that no dispatcher serves.
abbrev pub no_key : Key
no_key = record { typ = unset; nsid = 0; ifindex = 0 }

key_of_direction : TcDirection → TcDetails → Outcome Key
key_of_direction ingress d = ok (record { typ = tc_ingress; nsid = d.nsid; ifindex = d.ifindex })
key_of_direction egress d = ok (record { typ = tc_egress; nsid = d.nsid; ifindex = d.ifindex })
key_of_direction (other _) d = err (plain "unknown TC direction")

-- extractDispatcherKey
unfoldable pub extract_dispatcher_key : LinkDetails → Outcome Key
unfolding key_of_direction
extract_dispatcher_key (xdp_details d) =
    ok (record { typ = xdp; nsid = d.nsid; ifindex = d.ifindex })
extract_dispatcher_key (tc_details d) = key_of_direction d.direction d
extract_dispatcher_key (tracepoint_details _ _) = ok no_key
extract_dispatcher_key (kprobe_details _ _ _) = ok no_key
extract_dispatcher_key (uprobe_details _ _ _ _ _ _) = ok no_key
extract_dispatcher_key (fentry_details _) = ok no_key
extract_dispatcher_key (fexit_details _) = ok no_key
extract_dispatcher_key (tcx_details _ _ _ _ _ _ _) = ok no_key

-- record.Kind == LinkKindXDP || record.Kind == LinkKindTC
unfoldable pub has_dispatcher : LinkKind → Bool
has_dispatcher Links.xdp = true
has_dispatcher Links.tc = true
has_dispatcher Links.tracepoint = false
has_dispatcher Links.kprobe = false
has_dispatcher Links.kretprobe = false
has_dispatcher Links.uprobe = false
has_dispatcher Links.uretprobe = false
has_dispatcher Links.fentry = false
has_dispatcher Links.fexit = false
has_dispatcher Links.tcx = false

abbrev pub is_unset : Key → Bool
is_unset key = dispatcher_type_eq key.typ unset

-- A computation that only reads its arguments.
abbrev pub lift : {A : Type 0} → Outcome A → Exec World A
lift r w = (r, w)

key_eq : Key → Key → Bool
key_eq a b = dispatcher_type_eq a.typ b.typ && a.nsid == b.nsid && a.ifindex == b.ifindex

unfoldable pub has_key : List Key → Key → Bool
unfolding key_eq
has_key [] key = false
has_key (k ∷ keys) key = key_eq k key || has_key keys key

-- keys[key] = struct{}{}, for a set of keys as a list without repetition.
unfoldable pub insert_key : Key → List Key → List Key
unfolding has_key
insert_key key keys = if has_key keys key then keys else keys ++ key ∷ []

-- delete(keys, key)
unfoldable pub delete_key : Key → List Key → List Key
unfolding key_eq
delete_key key [] = []
delete_key key (k ∷ keys) =
    let rest = delete_key key keys in if key_eq k key then rest else k ∷ rest

collect_key : Outcome Key → List Key → List Key
unfolding insert_key
collect_key (ok key) keys = if is_unset key then keys else insert_key key keys
collect_key (err e) keys = keys
collect_key (panic m) keys = keys

collect_from : List Key → List LinkRecord → List Key
unfolding collect_key extract_dispatcher_key has_dispatcher
collect_from keys [] = keys
collect_from keys (link ∷ links) =
    collect_from
      (if has_dispatcher link.link_kind
        then collect_key (extract_dispatcher_key link.details) keys
        else keys)
      links

-- collectDispatcherKeys
unfoldable pub collect_dispatcher_keys : List LinkRecord → List Key
unfolding collect_from
collect_dispatcher_keys = collect_from []

module _ (env : ManagerEnv) where
  -- The first node, for a link that is pinned.
  unfoldable pub detach_node : Option Text → List (Node World Action (Unit {0}))
  detach_node none = []
  detach_node (some path) = do_action (execute env) "detach-link" (Executor.detach_link path) ∷ []

  -- The last node, for a dispatcher's member and for any other link.
  unfoldable pub store_node : ℕ → Option Key → Node World Action (Unit {0})
  store_node id (some key) =
      do_action (execute env) "dispatcher-rebuild" (Executor.rebuild_dispatcher_for_detach key id)
  store_node id none = do_action (execute env) "delete-link" (Executor.delete_link id)

  -- detachPlan
  unfoldable pub detach_plan :
      LinkRecord → Option Key → Outcome (List (Node World Action (Unit {0})))
  unfolding detach_node store_node
  detach_plan link key = build (detach_node link.pin_path ++ store_node link.id key ∷ [])

  -- dispKey
  unfoldable pub dispatcher_key : LinkRecord → Outcome (Option Key)
  unfolding has_dispatcher extract_dispatcher_key
  dispatcher_key link =
      if has_dispatcher link.link_kind
      then elim (extract_dispatcher_key link.details) [
        | ok key ↦ ok (if is_unset key then none else some key)
        | err e ↦ err e
        | panic m ↦ panic m
      ]
      else ok none

  -- Detach
  unfoldable pub detach : ℕ → Exec World (Unit {0})
  unfolding get_link dispatcher_key detach_plan
  detach link_id = do
    link ← get_link env link_id
    key ← wrapping "extract dispatcher key" (lift (dispatcher_key link))
    plan ← lift (detach_plan link key)
    run0 (execute env) plan

  -- cleanupEmptyDispatchers, in the order in which the range visits the keys.
  unfoldable pub cleanup_each : List Key → Exec World (Unit {0})
  cleanup_each [] = pure tt
  cleanup_each (key ∷ keys) = do
    logged (execute env (Executor.remove_dispatcher key))
    cleanup_each keys

  unfoldable pub cleanup_empty_dispatchers : List Key → Exec World (Unit {0})
  unfolding cleanup_each
  cleanup_empty_dispatchers keys w = cleanup_each (env.order w keys) w
