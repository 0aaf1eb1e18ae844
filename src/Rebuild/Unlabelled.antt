-- ===== src/Rebuild/Unlabelled.antt =====
-- Which labels a rebuild (manager/executor_dispatcher.go) gives to the store, and the shared steps, which
-- store nothing.
use go_bpfman.Prelude.{
  ◌≡◌, refl, ap, inl, inr, In, ℕ, suc, String, Text, text_eq, List, [], ◌∷◌, ◌++◌, some, All,
}
use go_bpfman.Errors.{Err, wrap}
use go_bpfman.Exec.{Outcome, ok, err, panic, Exec, pure, fail, logged, ◌>>◌}
use go_bpfman.Platform.{Key, DispatcherMemberSpec, DispatcherSnapshot, DispatcherSnapshotSpec}
use go_bpfman.Layout.{extension_link_path}
use go_bpfman.Slots.{RebuildSlot}
use go_bpfman.World.{
  Call, replace_snapshot, detach_link, link_info, remove_rev_dir, Event, done, failed,
  ExtensionAttachSpec, Log, Env, invoke,
}
use go_bpfman.World.Adds.{
  Adds, Logs, Reaches, Adds-invoke, Adds-dropped, Adds-if, Adds-bind, Adds-on_error, Reaches-Adds,
  Reaches-after, Reaches-logged,
}
use go_bpfman.Rebuild.{
  AttachedExt, cleanup_extensions, attach_slots, verify_extensions, remove_old, lift,
}

abbrev pub UnlabelledSpec : DispatcherMemberSpec → Type 0
UnlabelledSpec s = s.metadata ≡ []

-- A call that stores a snapshot stores one whose members have no labels.
abbrev pub StoresUnlabelled : Call → Type 0
StoresUnlabelled (replace_snapshot spec) = All UnlabelledSpec spec.members
StoresUnlabelled _ = Unit

abbrev pub Unlabelling : Event → Type 0
Unlabelling (done c) = StoresUnlabelled c
Unlabelling (failed c _) = StoresUnlabelled c

module _ (env : Env) (start : Log) where
  -- What was logged since the start stores no labels.
  abbrev pub Since : Log → Type 0
  Since = Adds Unlabelling start

  pub logged-Since :
      {A : Type 0} (c : Call) (value : Log → A) (log : Log)
      → StoresUnlabelled c
      → Since log
      → Logs Unlabelling start (logged (invoke env c value) log)
  logged-Since c value log q s =
      Adds-dropped Unlabelling start (invoke env c value log)
        (Adds-invoke Unlabelling start env c value log q (λ _. q) s)

  pub lift-Since :
      {A : Type 0} (r : Outcome A) (log : Log) → Since log → Logs Unlabelling start (lift r log)
  lift-Since (ok a) log s = s
  lift-Since (err e) log s = s
  lift-Since (panic m) log s = s

  pub cleanup_extensions-Since :
      (attached : List AttachedExt) (log : Log)
      → Since log
      → Logs Unlabelling start (cleanup_extensions env attached log)
  unfolding cleanup_extensions
  cleanup_extensions-Since [] log s = s
  cleanup_extensions-Since (ext ∷ attached) log s =
      Adds-bind Unlabelling start _ _
        (Adds-if Unlabelling start (text_eq ext.pin_path []) (pure tt) _ log s
          (logged-Since (detach_link ext.pin_path) (λ _. tt) log tt s))
        (λ _ l t. cleanup_extensions-Since attached l t)

  pub verify_extensions-Since :
      (attached : List AttachedExt) (log : Log)
      → Since log
      → Logs Unlabelling start (verify_extensions env attached log)
  unfolding verify_extensions
  verify_extensions-Since [] log s = s
  verify_extensions-Since (ext ∷ attached) log s =
      Adds-bind Unlabelling start _ _ (logged-Since (link_info ext.pin_path) (λ _. tt) log tt s)
        (λ _ l t. verify_extensions-Since attached l t)

  -- The snapshot of that key was stored since the start.
  abbrev pub Stored : Key → Log → Type 0
  Stored key log =
      (spec : DispatcherSnapshotSpec) × (spec.key ≡ key)
      × ((new : Log) × (log ≡ new ++ start) × In (done (replace_snapshot spec)) new)

  pub Stored-done :
      (spec : DispatcherSnapshotSpec) (log : Log)
      → Since log
      → (new : Log) × (done (replace_snapshot spec) ∷ log ≡ new ++ start)
        × In (done (replace_snapshot spec)) new
  Stored-done spec log (new, e, _) =
      let ev = done (replace_snapshot spec) in (ev ∷ new, ap (λ l. ev ∷ l) e, inl refl)

  Stored-cons : (key : Key) (ev : Event) (log : Log) → Stored key log → Stored key (ev ∷ log)
  Stored-cons key ev log (spec, k, (new, e, i)) = (spec, k, (ev ∷ new, ap (λ l. ev ∷ l) e, inr i))

  -- The removal of the old revision is logged, and the snapshot stays stored.
  pub remove_old-Reaches :
      (key k : Key) (snap : DispatcherSnapshot) (log : Log)
      → Since log
      → Stored k log
      → Reaches Unlabelling start (Stored k) (remove_old env key (some snap) log)
  unfolding remove_old
  remove_old-Reaches key k snap log s stored =
      Reaches-logged Unlabelling start (Stored k) env (remove_rev_dir _) (λ _. tt) log tt (λ _. tt)
        (λ ev. Stored-cons k ev log stored) s

  module _ (undo : Exec Log (Unit {0}))
      (undone : (l : Log) → Since l → Logs Unlabelling start (undo l)) where
    -- The way out of an error before the snapshot is stored.
    pub undo-Reaches :
        (A : Type 0) (R : Log → Type 0) (attached : List AttachedExt) (e : Err) (log : Log)
        → Since log
        → Reaches Unlabelling start {A = A} R
            ((cleanup_extensions env attached >> (undo >> fail e)) log)
    undo-Reaches A R attached e log s =
        Reaches-after Unlabelling start R _ _ (cleanup_extensions-Since attached log s)
          (λ _ l t. Reaches-after Unlabelling start R _ (λ _. fail e) (undone l t) (λ _ _ u. u))

    pub undo-Since :
        (A : Type 0) (attached : List AttachedExt) (e : Err) (log : Log)
        → Since log
        → Logs Unlabelling start {A = A} ((cleanup_extensions env attached >> (undo >> fail e)) log)
    undo-Since A attached e log s =
        Reaches-Adds Unlabelling start (λ _. Unit {0}) _
          (undo-Reaches A (λ _. Unit {0}) attached e log s)

    pub attach_slots-Since :
        (label : String) (attach : ExtensionAttachSpec → Call)
        → ((spec : ExtensionAttachSpec) → StoresUnlabelled (attach spec))
        → (key : Key) (revision : ℕ) (disp : Text) (i : ℕ) (attached : List AttachedExt)
          (slots : List RebuildSlot) (log : Log)
        → Since log
        → Logs Unlabelling start
            (attach_slots env label attach undo key revision disp i attached slots log)
    unfolding attach_slots
    attach_slots-Since label attach q key revision disp i attached [] log s = s
    attach_slots-Since label attach q key revision disp i attached (slot ∷ slots) log s =
        let path = extension_link_path env.base key revision i in
        let spec : ExtensionAttachSpec = record {
          dispatcher_pin_path = disp;
          prog_pin_path = slot.prog_pin_path;
          program_name = slot.program_name;
          position = i;
          link_pin_path = path;
        } in
        Adds-on_error Unlabelling start _ _ _
          (Adds-invoke Unlabelling start env (attach spec) (λ l. env.attach_output_of l spec) log
            (q spec) (λ _. q spec) s)
          (λ e l t. undo-Since _ attached (wrap label e) l t)
          (λ out l t.
            attach_slots-Since label attach q key revision disp (suc i)
              (attached ++ record { out = out; position = i; pin_path = path } ∷ []) slots l t)
