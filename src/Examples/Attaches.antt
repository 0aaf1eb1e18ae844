-- ===== src/Examples/Attaches.antt =====
-- Attaching at concrete programs, and the order of TCX programs.
use mathlib.Core.Bool.{Bool}
use go_bpfman.Prelude.{
  ℕ, codes, ◌≡◌, refl, inl, In-append_right, List, [], ◌∷◌, ◌++◌, Option, none, some, ◌==◌, pos,
  if◌then◌else◌, arith, ◌&&◌, text_eq, inr,
}
use go_bpfman.Errors.{Err, plain, wrap}
use go_bpfman.Exec.{ok, err, pure}
use go_bpfman.Links.{direction_name, ingress, attach_tcx, kprobe_details, attach_kprobe}
use go_bpfman.Operation.{build, run, get}
use go_bpfman.Manager.World.{World, ManagerEnv, Call, Trace}
use go_bpfman.Manager.World
use go_bpfman.Manager.Executor.{execute}
use go_bpfman.Manager.Attach.{AttachParams, simple_attach}
use go_bpfman.Manager.Attach.Outcomes.{Outcomes, simple_attach-Outcomes}
use go_bpfman.Manager.Attach.Tracing.{attach_tracepoint_program, attach_fentry_program}
use go_bpfman.Manager.Attach.Hook.{TcxAttachSpec, attach_tcx_program}
use go_bpfman.Manager.Attach.Hook.Guard.{OnlyQuestions, attach_tcx_program-OnlyQuestions}
use go_bpfman.Manager.World.Since.{Since}
use go_bpfman.Exec.Settled.{Settled}
use go_bpfman.Manager.Order.Members.{Distinct}
use go_bpfman.Tcx.{
  TcxAttachOrder, TcxLinkInfo, head, before_program, after_program, compute_tcx_attach_order,
  tcx_attach_before, filter_live_tcx_links,
}
use go_bpfman.Tcx.Order.{Place, IsPlacing, Placed, compute_tcx_attach_order-Placed}
use go_bpfman.Examples.Unloads
use go_bpfman.Examples.Unloads.{now}

-- The record cannot be finalised.
abbrev refuses : World → Call → Option Err
refuses w (World.finalise_link id kernel_id) = some (plain "disk full")
refuses w _ = none

abbrev env : ManagerEnv
env = record Unloads.env { fails = refuses }

abbrev params : AttachParams
params = record {
  program_id = 8;
  metadata = [];
  prepare = λ _ prog_pin. pure (record {
    details = kprobe_details (codes "do_unlinkat") 0 Bool.false;
    attach_action = λ path. attach_kprobe prog_pin (codes "do_unlinkat") 0 Bool.false path;
  });
}

simple_attach-Outcomes_example : Outcomes env params now
simple_attach-Outcomes_example =
    simple_attach-Outcomes env params now (λ v pa. (codes "/run/fs/links/4", refl))

-- No such tracepoint: nothing is created. No attach function: the same.
unknown :
    (attach_tracepoint_program env 8 [] (codes "sched") (codes "no") now).0
    ≡ err (plain "tracepoint not found")
unfolding attach_tracepoint_program execute build run get World.invoke
unknown = refl

no_function :
    (attach_fentry_program env 8 [] now).0
    ≡ err (plain "fentry requires attach function at load time")
unfolding attach_fentry_program execute build run get World.invoke
no_function = refl

not_saved : (simple_attach env params now).0 ≡ err (wrap "save link metadata" (plain "disk full"))
unfolding simple_attach execute build run get World.invoke
not_saved = refl

abbrev hook : ℕ → ℕ → TcxAttachSpec
hook id priority = record {
  program_id = id;
  ifname = codes "eth0";
  direction = ingress;
  priority = pos priority;
  netns = [];
  metadata = [];
}

-- The order of the last TCX attach.
asked_order : Trace → Option TcxAttachOrder
asked_order [] = none
asked_order (World.done (World.attach (attach_tcx _ _ _ _ _ order)) ∷ t) = some order
asked_order (_ ∷ t) = asked_order t

hooked :
    asked_order (attach_tcx_program Unloads.env (hook 6 5) now).1.trace ≡ some (tcx_attach_before 8)
unfolding asked_order attach_tcx_program execute build run get World.invoke
hooked = refl

-- A priority that no int32 holds becomes a negative one, and the program runs first.
wrapped_priority :
    asked_order (attach_tcx_program Unloads.env (hook 6 2147483648) now).1.trace
    ≡ some (tcx_attach_before 8)
unfolding asked_order attach_tcx_program execute build run get World.invoke
wrapped_priority = refl

abbrev tcx_link : ℕ → ℕ → TcxLinkInfo
tcx_link id priority = record {
  link_id = id;
  kernel_link_id = id;
  kernel_program_id = id;
  priority = pos priority;
}

-- Program 8 is attached at one hook, the ingress of interface 2 in namespace 1, until its link there
-- is detached.
abbrev still_there : Trace → Bool
still_there [] = Bool.true
still_there (World.done (World.detach_link _) ∷ t) = Bool.false
still_there (_ ∷ t) = still_there t

abbrev one_hook : ManagerEnv
one_hook = record Unloads.env {
  tcx_links_of = λ w nsid ifindex direction.
      if nsid == 1 && ifindex == 2 && text_eq direction (codes "ingress") && still_there w.trace
      then tcx_link 5 10 ∷ tcx_link 8 20 ∷ []
      else [];
}

asked-still_there : (new : Trace) → OnlyQuestions new → still_there (new ++ now.trace) ≡ Bool.true
asked-still_there [] h = refl
asked-still_there (World.done (World.detach_link _) ∷ t) h = absurd h.0
asked-still_there (ev ∷ t) h = asked-still_there t h.1

attach_tcx_program-OnlyQuestions_example :
    Settled (λ _. Since now OnlyQuestions) (λ _ _. ⊥) (attach_tcx_program one_hook (hook 8 5) now)
unfolding direction_name
attach_tcx_program-OnlyQuestions_example =
    attach_tcx_program-OnlyQuestions one_hook (hook 8 5) now 2 1 (λ v s. refl) (λ v s. refl)
      (λ v (new, p, h). rw (p, asked-still_there new h) (inr (inl refl)))

abbrev chain : List TcxLinkInfo
chain = tcx_link 5 10 ∷ tcx_link 6 20 ∷ tcx_link 7 20 ∷ tcx_link 8 30 ∷ []

behind_equals : compute_tcx_attach_order chain (pos 20) ≡ tcx_attach_before 8
unfolding compute_tcx_attach_order
behind_equals = refl

-- The dead program is looked up once.
kept :
    filter_live_tcx_links {W = List ℕ}
      (λ id asked. (ok (if id == 6 then Bool.false else Bool.true), id ∷ asked))
      (tcx_link 6 1 ∷ tcx_link 5 2 ∷ tcx_link 6 3 ∷ [])
      []
    ≡ (ok (tcx_link 5 2 ∷ []), 5 ∷ 6 ∷ [])
unfolding filter_live_tcx_links
kept = refl

-- A kernel that keeps chains as lists.
insert_before : ℕ → ℕ → List ℕ → Option (List ℕ)
insert_before a id [] = none
insert_before a id (x ∷ xs) =
    let rest = insert_before a id xs in
    if x == a then some (id ∷ x ∷ xs) else elim rest [ some ys ↦ some (x ∷ ys) | none ↦ none ]

insert_after : ℕ → ℕ → List ℕ → Option (List ℕ)
insert_after a id [] = none
insert_after a id (x ∷ xs) =
    let rest = insert_after a id xs in
    if x == a then some (x ∷ id ∷ xs) else elim rest [ some ys ↦ some (x ∷ ys) | none ↦ none ]

place : Place
unfolding insert_before insert_after
place head id xs = some (id ∷ xs)
place (before_program a) id xs = insert_before a id xs
place (after_program a) id xs = insert_after a id xs

insert_before_lem :
    (a id : ℕ) (xs ys : List ℕ)
    → Distinct (xs ++ a ∷ ys)
    → insert_before a id (xs ++ a ∷ ys) ≡ some (xs ++ id ∷ a ∷ ys)
unfolding insert_before
insert_before_lem a id [] ys d = ground arith
insert_before_lem a id (x ∷ xs) ys d =
    let other : ¬ (x ≡ a) = λ e. d.0 (rw e (In-append_right a xs (a ∷ ys) (inl refl))) in
    ground (arith, other, insert_before_lem a id xs ys d.1)

insert_after_lem :
    (a id : ℕ) (xs ys : List ℕ)
    → Distinct (xs ++ a ∷ ys)
    → insert_after a id (xs ++ a ∷ ys) ≡ some (xs ++ a ∷ id ∷ ys)
unfolding insert_after
insert_after_lem a id [] ys d = ground arith
insert_after_lem a id (x ∷ xs) ys d =
    let other : ¬ (x ≡ a) = λ e. d.0 (rw e (In-append_right a xs (a ∷ ys) (inl refl))) in
    ground (arith, other, insert_after_lem a id xs ys d.1)

place-IsPlacing : IsPlacing place
unfolding place
place-IsPlacing = record {
  at_head = λ id xs. refl;
  before = insert_before_lem;
  after = insert_after_lem;
}

compute_tcx_attach_order-Placed_example :
    Placed (pos 20) place 9 [] chain (compute_tcx_attach_order chain (pos 20))
compute_tcx_attach_order-Placed_example =
    compute_tcx_attach_order-Placed place place-IsPlacing chain (pos 20) 9
      ((refl, (refl, (refl, tt))), ((refl, (refl, tt)), ((refl, tt), (tt, tt)))) (ground arith)
      (ground arith)
