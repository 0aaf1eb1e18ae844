-- ===== src/Rebuild/Empty/Contract.antt =====
-- The failure contract of removeEmptyDispatcher (manager/executor_dispatcher.go).
use go_bpfman.Prelude.{◌≡◌, refl, ap, ◌∙◌, ◌⊎◌, inl, inr, Option, none, some, ◌∷◌}
use go_bpfman.Errors.{Err, wrap, joined, errors_join}
use go_bpfman.Exec.{Outcome, ok, err, Exec, logged, dropped, attempt, caught, proceed, ◌>>=◌, ◌>>◌}
use go_bpfman.Platform.{DispatcherSnapshot}
use go_bpfman.Layout.{dispatcher_prog_path, dispatcher_revision_dir}
use go_bpfman.World.{
  Call, Event, done, failed, Log, Env, invoke, invoke_unit, remove_pin, remove_rev_dir,
  delete_snapshot,
}
use go_bpfman.Rebuild.Empty.{
  returned, delete_errors, detach_kernel, remove_dispatcher_prog_pin,
  remove_dispatcher_revision_dir, delete_dispatcher_snapshot, remove_empty_dispatcher,
}

-- The event of a call, whatever its outcome.
abbrev pub Attempt : Call → Event → Type 0
Attempt c ev = (ev ≡ done c) ⊎ ((e : Err) × (ev ≡ failed c e))

-- A call succeeds or fails, and its event is logged.
invoke-cases :
    {A : Type 0} (env : Env) (c : Call) (value : Log → A) (log : Log)
    → (invoke env c value log ≡ (ok (value log), done c ∷ log))
      ⊎ ((x : Err) × (invoke env c value log ≡ (err x, failed c x ∷ log)))
unfolding invoke
invoke-cases {A} env c value log = go (env.fails log c)
  where
    r : Option Err → Outcome A × Log
    r o = elim o [ none ↦ (ok (value log), done c ∷ log) | some x ↦ (err x, failed c x ∷ log) ]

    go :
        (o : Option Err)
        → (r o ≡ (ok (value log), done c ∷ log)) ⊎ ((x : Err) × (r o ≡ (err x, failed c x ∷ log)))
    go none = inl refl
    go (some x) = inr (x, refl)

bind-ok :
    {A B : Type 0} (m : Exec Log A) (f : A → Exec Log B) (a : A) (log log' : Log)
    → m log ≡ (ok a, log')
    → (m >>= f) log ≡ f a log'
bind-ok m f a log log' e = ap (λ r. proceed r f) e

module _ (env : Env) where
  attempted :
      (c : Call) (log : Log)
      → (ev : Event) × Attempt c ev × (logged (invoke_unit env c) log ≡ (ok tt, ev ∷ log))
  attempted c log = elim (invoke-cases env c (λ _. tt) log) [
    | inl e ↦ (done c, inl refl, ap dropped e)
    | inr (x, e) ↦ (failed c x, inr (x, refl), ap dropped e)
  ]

  abbrev last : Call → Exec Log (Unit {0})
  last c =
      attempt (invoke_unit env c) >>= (λ failure. returned (errors_join (delete_errors failure)))

  -- What removing the snapshot returns.
  deleted :
      (c : Call) (log : Log)
      → (last c log ≡ (ok tt, done c ∷ log))
        ⊎ ((e : Err) × (last c log
              ≡ (err (joined (wrap "delete dispatcher snapshot" e)), failed c e ∷ log)))
  unfolding errors_join
  deleted c log = elim (invoke-cases env c (λ _. tt) log) [
    | inl e ↦
        inl (
          ap (λ r. proceed (caught r) (λ failure. returned (errors_join (delete_errors failure))))
            e)
    | inr (x, e) ↦ inr (
      x,
      ap (λ r. proceed (caught r) (λ failure. returned (errors_join (delete_errors failure)))) e,
    )
  ]

-- Once the kernel detach has succeeded, the removal of the program pin, the removal of the revision
-- directory and the deletion of the snapshot are all tried, in this order and whatever each of them
-- returns, nothing else is called, and the only error that is returned is that of the deletion.
pub remove_empty_dispatcher-after_detach :
    (env : Env) (snap : DispatcherSnapshot) (log log' : Log)
    → detach_kernel env snap log ≡ (ok tt, log')
    → (pin dir : Event) × Attempt
        (remove_pin (dispatcher_prog_path env.base snap.key snap.revision))
        pin
      × Attempt (remove_rev_dir (dispatcher_revision_dir env.base snap.key snap.revision)) dir
      × ((remove_empty_dispatcher env snap log
            ≡ (ok tt, done (delete_snapshot snap.key) ∷ dir ∷ pin ∷ log'))
          ⊎ ((e : Err) × (remove_empty_dispatcher env snap log ≡ (
            err (joined (wrap "delete dispatcher snapshot" e)),
            failed (delete_snapshot snap.key) e ∷ dir ∷ pin ∷ log',
          ))))
unfolding remove_empty_dispatcher remove_dispatcher_prog_pin remove_dispatcher_revision_dir
    delete_dispatcher_snapshot
remove_empty_dispatcher-after_detach env snap log log' h =
    let pin_call = remove_pin (dispatcher_prog_path env.base snap.key snap.revision) in
    let dir_call = remove_rev_dir (dispatcher_revision_dir env.base snap.key snap.revision) in
    let (pin, pa, p) = attempted env pin_call log' in
    let (dir, da, d) = attempted env dir_call (pin ∷ log') in
    let end : Exec Log (Unit {0}) = last env (delete_snapshot snap.key) in
    let two : Exec Log (Unit {0}) = logged (invoke_unit env dir_call) >> end in
    let three : Exec Log (Unit {0}) = logged (invoke_unit env pin_call) >> two in
    let same : remove_empty_dispatcher env snap log ≡ end (dir ∷ pin ∷ log') =
      bind-ok (detach_kernel env snap) (λ _. three) tt log log' h
      ∙ bind-ok (logged (invoke_unit env pin_call)) (λ _. two) tt log' (pin ∷ log') p
      ∙ bind-ok (logged (invoke_unit env dir_call)) (λ _. end) tt (pin ∷ log') (dir ∷ pin ∷ log')
          d in
    (
      pin,
      dir,
      pa,
      da,
      elim (deleted env (delete_snapshot snap.key) (dir ∷ pin ∷ log')) [
        | inl q ↦ inl (same ∙ q)
        | inr (x, q) ↦ inr (x, same ∙ q)
      ],
    )
