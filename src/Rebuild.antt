-- ===== src/Rebuild.antt =====
-- The full rebuild of a dispatcher (manager/executor_dispatcher.go): what the XDP and the TC rebuild,
-- and the rebuilds after a detach, do alike. Logging is left out.
pub mod Cleanup
pub mod Keeps
pub mod Unlabelled
pub mod Filter
pub mod Xdp
pub mod Tc
pub mod Empty
pub mod Detach
use go_bpfman.Prelude.{
  String, get_elem?, pos, negsuc, length, ltb, if◌then◌else◌, ◌-◌, ℕ, zero, suc, ◌+◌, ◌%◌, ◌^◌, ℤ,
  Text, Bool, true, false, List, [], ◌∷◌, ◌++◌, map, Option, none, some, text_eq,
}
use go_bpfman.Errors.{Err, plain, wrap, is_not_found}
use go_bpfman.Exec.{
  Outcome, ok, err, panic, Exec, pure, fail, panics, ◌>>=◌, ◌>>◌, on_error, logged, wrapping,
}
use go_bpfman.Platform.{
  Key, DispatcherMember, DispatcherMemberSpec, DispatcherSnapshot, DispatcherRuntime, Labels,
}
use go_bpfman.Links.{Link, AttachOutput}
use go_bpfman.Slots.{new_slot_position, RebuildSlot, all_slots, sort_rebuild_slots}
use go_bpfman.Layout.{extension_link_path, dispatcher_prog_path, dispatcher_revision_dir}
use go_bpfman.World.{
  remove_rev_dir, Call, nsid, get_snapshot, link_info, detach_link, remove_pin, ExtensionAttachSpec,
  Log, Env, invoke, invoke_unit,
}

-- attachedExt
pub record AttachedExt : Type 0 where
  pub out : AttachOutput
  pub position : ℕ
  pub pin_path : Text

-- extensionResult
pub record ExtensionResult : Type 0 where
  pub link : Link
  pub key : Key
  pub revision : ℕ
  pub position : ℕ
  pub pin_path : Text

-- `snap.Revision + 1` as uint32
abbrev pub next_revision : ℕ → ℕ
next_revision r = (r + 1) % 2 ^ 32

member_spec : ℕ → RebuildSlot → AttachedExt → DispatcherMemberSpec
member_spec i slot ext = record {
  existing_link_id = slot.existing_link_id;
  program_id = slot.program_id;
  program_name = slot.program_name;
  prog_pin_path = slot.prog_pin_path;
  kernel_link_id = ext.out.kernel_link_id;
  link_pin_path = ext.pin_path;
  position = i;
  priority = slot.priority;
  proceed_on = slot.proceed_on;
  ifname = slot.ifname;
  metadata = slot.metadata;
}

-- dispatcherMembers, from index `i` on; `attached[i]` out of range is a panic.
pub members_from : ℕ → List RebuildSlot → List AttachedExt → Outcome (List DispatcherMemberSpec)
unfolding member_spec
members_from i [] attached = ok []
members_from i (slot ∷ slots) [] = panic "index out of range"
members_from i (slot ∷ slots) (ext ∷ attached) = elim (members_from (suc i) slots attached) [
  | ok rest ↦ ok (member_spec i slot ext ∷ rest)
  | err e ↦ err e
  | panic m ↦ panic m
]

unfoldable pub dispatcher_members :
    List RebuildSlot → List AttachedExt → Outcome (List DispatcherMemberSpec)
unfolding members_from
dispatcher_members slots attached = members_from 0 slots attached

module _ (env : Env) where
  -- cleanupExtensions: every pinned extension link is detached, errors are logged.
  unfoldable pub cleanup_extensions : List AttachedExt → Exec Log (Unit {0})
  cleanup_extensions [] = pure tt
  cleanup_extensions (ext ∷ attached) = do
    if text_eq ext.pin_path [] then pure tt else logged (invoke_unit env (detach_link ext.pin_path))
    cleanup_extensions attached

  -- cleanupNewDispatcher
  unfoldable pub cleanup_new_dispatcher : Text → Exec Log (Unit {0})
  cleanup_new_dispatcher path = logged (invoke_unit env (remove_pin path))

  -- The attach loop, at position `i`, with what is attached so far. `attach` is the call of the
  -- dispatcher's kind, `label` the error's, and `undo` removes the new dispatcher on an error.
  unfoldable pub attach_slots :
      (label : String) (attach : ExtensionAttachSpec → Call) (undo : Exec Log (Unit {0}))
      (key : Key) (revision : ℕ) (disp_prog_pin_path : Text)
      → ℕ
      → List AttachedExt
      → List RebuildSlot
      → Exec Log (List AttachedExt)
  unfolding cleanup_extensions
  attach_slots label attach undo key revision disp i attached [] = pure attached
  attach_slots label attach undo key revision disp i attached (slot ∷ slots) =
      let path = extension_link_path env.base key revision i in
      let spec : ExtensionAttachSpec = record {
        dispatcher_pin_path = disp;
        prog_pin_path = slot.prog_pin_path;
        program_name = slot.program_name;
        position = i;
        link_pin_path = path;
      } in
      on_error (invoke env (attach spec) (λ log. env.attach_output_of log spec))
        (λ e. do cleanup_extensions attached; undo; fail (wrap label e))
        (λ out.
          attach_slots label attach undo key revision disp (suc i)
            (attached ++ record { out = out; position = i; pin_path = path } ∷ []) slots)

  -- The diagnostic loop over the new links: errors are logged.
  unfoldable pub verify_extensions : List AttachedExt → Exec Log (Unit {0})
  verify_extensions [] = pure tt
  verify_extensions (ext ∷ attached) = do
    logged (invoke_unit env (link_info ext.pin_path))
    verify_extensions attached

  -- The stored snapshot of the key, or none where the store has no such record.
  unfoldable pub query_snapshot : Key → Exec Log (Option DispatcherSnapshot)
  query_snapshot key =
      on_error (invoke env (get_snapshot key) (λ log. env.snapshot_of log key))
        (λ e. if is_not_found e then pure none else fail (wrap "get dispatcher" e))
        (λ snap. pure (some snap))

  -- Cleanup of everything that the attach loop and the load have pinned.
  unfoldable pub undo_attach : Key → ℕ → List AttachedExt → Exec Log (Unit {0})
  undo_attach key revision attached = do
    cleanup_extensions attached
    cleanup_new_dispatcher (dispatcher_prog_path env.base key revision)

  -- Clean up the old revision directory; a failure is logged.
  unfoldable pub remove_old : Key → Option DispatcherSnapshot → Exec Log (Unit {0})
  remove_old key none = pure tt
  remove_old key (some snap) =
      logged (invoke_unit env (remove_rev_dir (dispatcher_revision_dir env.base key snap.revision)))

-- newSlotPosition, or the last attached slot where no slot was new.
abbrev pub chosen_position : List RebuildSlot → List AttachedExt → ℕ
chosen_position slots attached = elim (new_slot_position slots) [
  | none ↦ length attached - 1
  | some i ↦ i
]

-- `s[i]`, which panics out of range
abbrev pub element : {A : Type 0} → Option A → Exec Log A
element none log = (panic "index out of range", log)
element (some a) log = (ok a, log)

-- int32 of an int
unfoldable pub to_int32 : ℤ → ℤ
to_int32 (pos n) = let m = n % 2 ^ 32 in if ltb m (2 ^ 31) then pos m else negsuc (2 ^ 32 - 1 - m)
to_int32 (negsuc n) =
    let m = n % 2 ^ 32 in if ltb m (2 ^ 31) then negsuc m else pos (2 ^ 32 - 1 - m)

abbrev pub stored_members : Option DispatcherSnapshot → List DispatcherMember
stored_members none = []
stored_members (some snap) = snap.members

-- The revision of the new dispatcher: 1 on the first attach.
abbrev pub new_revision : Option DispatcherSnapshot → ℕ
new_revision none = 1
new_revision (some snap) = next_revision snap.revision

abbrev pub lift : {A : Type 0} → Outcome A → Exec Log A
lift r log = (r, log)
