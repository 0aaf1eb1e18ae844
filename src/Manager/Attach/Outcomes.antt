-- ===== src/Manager/Attach/Outcomes.antt =====
-- Every way in which a simple attach ends, and what it has done by then.
use go_bpfman.Prelude.{String, Text, ◌≡◌, ◌⊎◌, inl, inr, some, Option-cases}
use go_bpfman.Errors.{Err, wrap}
use go_bpfman.Exec.{Outcome, ok, err, panic, Outcome-cases}
use go_bpfman.Links.{Link}
use go_bpfman.Manager.World.{Call, Event, done, failed, World, ManagerEnv, invoke}
use go_bpfman.Manager.World
use go_bpfman.Manager.World.Since.{after_call}
use go_bpfman.Manager.Attach.{
  AttachPlan, AttachParams, prepare_plan, pending_spec, link_of, simple_attach,
}
use go_bpfman.Manager.Attach.Steps.{
  note, creation, pending_link, created, kernel_attach, output, was_attached, save, not_created,
  not_attached, attached_and_saved, not_finalised, refused, panicked,
}

module _ (env : ManagerEnv) (p : AttachParams) where
  -- The ways in which it goes on from the program's plan `pa`.
  module _ (pa : AttachPlan) (v : World) (r : Outcome Link × World) where
    abbrev pub NotCreated : Type 0
    NotCreated = (e : Err) × (r ≡ (err e, note (failed (creation env p pa) e) v))

    abbrev pub NotAttached : Text → Type 0
    NotAttached path =
        (e : Err) × (r ≡ (
          err e,
          after_call env (World.delete_link (pending_link env p pa v).id)
              (note (failed (kernel_attach env p pa path v) e) (created env p pa v)),
        ))

    abbrev pub NotSaved : Text → Type 0
    NotSaved path =
        (e : Err) × (r ≡ (
          err (wrap "save link metadata" e),
          after_call env (World.delete_link (pending_link env p pa v).id) (
              after_call env (World.detach_link path)
                (note (failed (save env p pa path v) e) (was_attached env p pa path v))),
        ))

    abbrev pub IsAttached : Text → Type 0
    IsAttached path = r ≡ (
      ok (
          link_of env p pa (output env p pa path v) (
            env.finalised_of (was_attached env p pa path v) (pending_link env p pa v).id
              (output env p pa path v).kernel_link_id)),
      note (done (save env p pa path v)) (was_attached env p pa path v),
    )

    abbrev pub Attaching : Type 0
    Attaching =
        NotCreated
        ⊎ ((path : Text) × ((pending_link env p pa v).pin_path ≡ some path)
            × (NotAttached path ⊎ (NotSaved path ⊎ IsAttached path)))

  -- The program's plan is refused, or followed.
  abbrev pub Outcomes : World → Type 0
  Outcomes w =
      let r = simple_attach env p w in
      ((e : Err) × (v : World) × (prepare_plan env p w ≡ (err e, v)) × (r ≡ (err e, v)))
      ⊎ ((m : String) × (v : World) × (prepare_plan env p w ≡ (panic m, v)) × (r ≡ (panic m, v)))
      ⊎ ((pa : AttachPlan) × (v : World) × (prepare_plan env p w ≡ (ok pa, v)) × Attaching pa v r)

-- Where the store gives every pending link a pin path, a simple attach ends in one of these ways.
-- The preparation fails, and nothing else was called. The record cannot be created, and nothing was
-- called behind that. The kernel attach fails at the recorded path, and the record's deletion is
-- tried. The record cannot be finalised, and first the detach of the recorded path is tried, then
-- the record's deletion. Or every step succeeds, and the finalised record is returned with the
-- details of the plan.
pub simple_attach-Outcomes :
    (env : ManagerEnv) (p : AttachParams) (w : World)
    → ((v : World) (pa : AttachPlan)
        → (path : Text) × ((env.pending_of v (pending_spec env p pa)).pin_path ≡ some path))
    → Outcomes env p w
simple_attach-Outcomes env p w pinned = elim (Outcome-cases (prepare_plan env p w)) [
  | inr (inl (e, q)) ↦ inl (e, (prepare_plan env p w).1, q, refused env p w _ e q)
  | inr (inr (m, q)) ↦ inr (inl (m, (prepare_plan env p w).1, q, panicked env p w _ m q))
  | inl (pa, q) ↦
      let v = (prepare_plan env p w).1 in
      let (path, at) = pinned v pa in
      inr (
        inr (
          pa,
          v,
          q,
          (elim (Option-cases (env.fails v (creation env p pa))) [
            | inr (e, f) ↦ inl (e, not_created env p pa w v q e f)
            | inl f ↦
                elim (Option-cases
                  (env.fails (created env p pa v) (kernel_attach env p pa path v))) [
                    | inr (e, g) ↦
                        inr (path, at, inl (e, not_attached env p pa w v q path at f e g))
                    | inl g ↦
                        elim (Option-cases
                          (env.fails (was_attached env p pa path v) (save env p pa path v))) [
                            | inr (e, h) ↦ inr (
                              path,
                              at,
                              inr (inl (e, not_finalised env p pa w v q path at f e g h)),
                            )
                            | inl h ↦ inr (
                              path,
                              at,
                              inr (inr (attached_and_saved env p pa w v q path at f g h)),
                            )
                          ]
                  ]
          ]),
        ))
]
