-- ===== src/Rebuild/Detach/Labels.antt =====
-- The labels that rebuildDispatcherForDetach (manager/executor_dispatcher.go) stores.
use mathlib.Core.Path.{subst}
use go_bpfman.Prelude.{
  ◌≡◌, refl, arith, ℕ, suc, ◌⊎◌, inl, inr, Text, text_eq, text_eq_iff, Bool-cases, false, List, [],
  ◌∷◌, map, All, Option, none, some,
}
use go_bpfman.Errors.{Err}
use go_bpfman.Exec.{Outcome, ok, err, panic, Exec, pure, proceed, wrapped}
use go_bpfman.Platform.{
  xdp, dispatcher_type_eq, Key, DispatcherMember, DispatcherMemberSpec, DispatcherSnapshot,
}
use go_bpfman.Layout.{dispatcher_prog_path}
use go_bpfman.Slots.{RebuildSlot}
use go_bpfman.Slots.Position.{All-sort}
use go_bpfman.World.{get_snapshot, stat, done, failed, Log, Env, invoke}
use go_bpfman.World.Adds.{
  Logs, Reaches, Adds-refl, Adds-cons, Adds-invoke, Adds-if, Adds-on_error, Reaches-if,
  Reaches-after, Reaches-weaken,
}
use go_bpfman.Rebuild.{AttachedExt, members_from, member_spec, dispatcher_members, next_revision}
use go_bpfman.Rebuild.Unlabelled.{UnlabelledSpec, Unlabelling, Since, Stored}
use go_bpfman.Rebuild.Empty.{remove_empty_dispatcher}
use go_bpfman.Rebuild.Empty.Unlabelled.{Deleted, remove_empty_dispatcher-Reaches}
use go_bpfman.Rebuild.Detach.Xdp.{rebuild_xdp_for_detach}
use go_bpfman.Rebuild.Detach.Xdp.Unlabelled.{rebuild_xdp_for_detach-Reaches}
use go_bpfman.Rebuild.Detach.Tc.{rebuild_tc_for_detach}
use go_bpfman.Rebuild.Detach.Tc.Unlabelled.{rebuild_tc_for_detach-Reaches}
use go_bpfman.Rebuild.Detach.{
  without, remaining_slot, slots_of, netns_gone, rebuild_remaining, rebuild_or_remove,
  rebuild_dispatcher_for_detach,
}

abbrev Unlabelled : RebuildSlot → Type 0
Unlabelled s = s.metadata ≡ []

remaining-Unlabelled :
    (members : List DispatcherMember) → All Unlabelled (map remaining_slot members)
unfolding remaining_slot
remaining-Unlabelled [] = tt
remaining-Unlabelled (m ∷ members) = (refl, remaining-Unlabelled members)

members_from-Unlabelled :
    (i : ℕ) (slots : List RebuildSlot) (attached : List AttachedExt)
    (specs : List DispatcherMemberSpec)
    → All Unlabelled slots
    → members_from i slots attached ≡ ok specs
    → All UnlabelledSpec specs
unfolding members_from member_spec
members_from-Unlabelled i [] attached [] h e = tt
members_from-Unlabelled i [] attached (s ∷ specs) h e = absurd (ground (arith, e))
members_from-Unlabelled i (slot ∷ slots) [] specs h e = absurd (ground (arith, e))
members_from-Unlabelled i (slot ∷ slots) (ext ∷ attached) specs h e =
    go (members_from (suc i) slots attached)
      (λ rest. members_from-Unlabelled (suc i) slots attached rest h.1) e
  where
    go :
        (r : Outcome (List DispatcherMemberSpec))
        → ((rest : List DispatcherMemberSpec) → r ≡ ok rest → All UnlabelledSpec rest)
        → elim r [
          | ok rest ↦ ok (member_spec i slot ext ∷ rest)
          | err x ↦ err x
          | panic m ↦ panic m
        ]
          ≡ ok specs
        → All UnlabelledSpec specs
    go (ok rest) ih p =
        let same : member_spec i slot ext ∷ rest ≡ specs = ground (arith, p) in
        subst (All UnlabelledSpec) same (h.0, ih rest refl)
    go (err x) ih p = absurd (ground (arith, p))
    go (panic m) ih p = absurd (ground (arith, p))

dispatcher_members-UnlabelledSpec :
    (members : List DispatcherMember) (attached : List AttachedExt)
    (specs : List DispatcherMemberSpec)
    → dispatcher_members (slots_of members) attached ≡ ok specs
    → All UnlabelledSpec specs
unfolding dispatcher_members
dispatcher_members-UnlabelledSpec members attached specs e =
    members_from-Unlabelled 0 (slots_of members) attached specs
      (All-sort Unlabelled (map remaining_slot members) (remaining-Unlabelled members)) e

-- The snapshot was stored anew, or it was deleted, which only happens where it has no member left or
-- names a network namespace, which may be gone.
abbrev pub Recorded : Env → Log → DispatcherSnapshot → Log → Type 0
Recorded env start snap log =
    Stored env start snap.key log
    ⊎ (((snap.members ≡ []) ⊎ ¬ (snap.runtime.netns_path ≡ [])) × Deleted env start snap.key log)

module _ (env : Env) (start : Log) where
  netns_gone-Since :
      (path : Text) (log : Log)
      → Since env start log
      → Logs Unlabelling start (netns_gone env path log)
  unfolding netns_gone
  netns_gone-Since path log s = Adds-if Unlabelling start (text_eq path []) (pure false) _ log s (
      Adds-on_error Unlabelling start _ _ _
        (Adds-invoke Unlabelling start env (stat path) (λ _. tt) log tt (λ _. tt) s) (λ e l t. t)
        (λ _ l t. t))

  module _ (key : Key) (snap : DispatcherSnapshot) where
    abbrev Done : Outcome (Unit {0}) × Log → Type 0
    Done = Reaches Unlabelling start (Recorded env start snap)

    removed :
        (log : Log)
        → (snap.members ≡ []) ⊎ ¬ (snap.runtime.netns_path ≡ [])
        → Since env start log
        → Done (remove_empty_dispatcher env snap log)
    removed log why s =
        Reaches-weaken Unlabelling start (Deleted env start snap.key) (Recorded env start snap)
          (remove_empty_dispatcher env snap log) (λ l d. inr (why, d))
          (remove_empty_dispatcher-Reaches env start snap log s)

    rebuild_remaining-Reaches :
        (log : Log) → Since env start log → Done (rebuild_remaining env key snap log)
    unfolding rebuild_remaining
    rebuild_remaining-Reaches log s =
        let revision = next_revision snap.revision in
        let prog = dispatcher_prog_path env.base key revision in
        let slots = slots_of snap.members in
        let plain = dispatcher_members-UnlabelledSpec snap.members in
        Reaches-weaken Unlabelling start (Stored env start snap.key) (Recorded env start snap)
          (rebuild_remaining env key snap log) (λ l d. inl d)
          (Reaches-if Unlabelling start (Stored env start snap.key) (dispatcher_type_eq key.typ xdp)
            (rebuild_xdp_for_detach env snap revision slots prog)
            (rebuild_tc_for_detach env snap revision slots prog) log
            (rebuild_xdp_for_detach-Reaches env snap revision start slots prog log plain s)
            (rebuild_tc_for_detach-Reaches env snap revision start slots prog log plain s))

    rebuild_or_remove-Reaches :
        (members : List DispatcherMember) (log : Log)
        → snap.members ≡ members
        → Since env start log
        → Done (rebuild_or_remove env key snap members log)
    unfolding rebuild_or_remove netns_gone
    rebuild_or_remove-Reaches [] log same s = removed log (inl same) s
    rebuild_or_remove-Reaches (m ∷ members) log same s =
        elim (Bool-cases (text_eq snap.runtime.netns_path [])) [
          | inl e ↦ rw e (rebuild_remaining-Reaches log s)
          | inr e ↦
              Reaches-after Unlabelling start (Recorded env start snap) _ _
                (netns_gone-Since snap.runtime.netns_path log s)
                (λ gone l t.
                  Reaches-if Unlabelling start (Recorded env start snap) gone
                    (remove_empty_dispatcher env snap) (rebuild_remaining env key snap) l
                    (removed l
                      (inr (λ p. ground (arith, e, (text_eq_iff snap.runtime.netns_path []).1 p)))
                      t)
                    (rebuild_remaining-Reaches l t))
        ]

-- The snapshot that the store returns, without the detached link.
abbrev pub remaining : Env → Key → (link_id : ℕ) → Log → DispatcherSnapshot
remaining env key link_id log =
    let stored = env.snapshot_of log key in
    record stored { members = without link_id stored.members }

-- However a rebuild after a detach ends, in a panic too, every snapshot that it gave to the store had
-- members without labels only, whatever labels the stored members carried before. Where it returns no
-- error, it has stored a snapshot of the same key; or it has deleted the snapshot, and no member
-- remained, or the snapshot names a network namespace.
pub rebuild_dispatcher_for_detach-Unlabelling :
    (env : Env) (key : Key) (link_id : ℕ) (log : Log)
    → Reaches Unlabelling log
        (Recorded env log (remaining env key link_id log))
        (rebuild_dispatcher_for_detach env key link_id log)
unfolding rebuild_dispatcher_for_detach invoke
rebuild_dispatcher_for_detach-Unlabelling env key link_id log =
    go (env.fails log (get_snapshot key))
  where
    snap : DispatcherSnapshot
    snap = env.snapshot_of log key

    rest : DispatcherSnapshot → Exec Log (Unit {0})
    rest stored =
        let members = without link_id stored.members in
        rebuild_or_remove env key (record stored { members = members }) members

    go :
        (o : Option Err)
        → Reaches Unlabelling log (Recorded env log (remaining env key link_id log)) (
            proceed
              (wrapped {A = DispatcherSnapshot} "get dispatcher snapshot" (elim o [
                | none ↦ (ok snap, done (get_snapshot key) ∷ log)
                | some e ↦ (err e, failed (get_snapshot key) e ∷ log)
              ]))
              rest)
    go none =
        rebuild_or_remove-Reaches env log key (remaining env key link_id log)
          (without link_id snap.members) (done (get_snapshot key) ∷ log) refl
          (Adds-cons Unlabelling log (done (get_snapshot key)) log tt (Adds-refl Unlabelling log))
    go (some e) =
        Adds-cons Unlabelling log (failed (get_snapshot key) e) log tt (Adds-refl Unlabelling log)
