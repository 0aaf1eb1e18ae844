-- ===== src/Manager/Load/Plan.antt =====
-- The plan of one load: it leaves the program's pin where it succeeds, and none where it fails.
use go_bpfman.Prelude.{
  Text, ◌≡◌, refl, ap, sym, inl, inr, List, [], ◌∷◌, none, some, Option-cases, arith,
}
use go_bpfman.Errors.{Err, wrap}
use go_bpfman.Exec.{ok, err}
use go_bpfman.Exec.Settled.{Settled}
use go_bpfman.Operation.{Bindings, get, build, run}
use go_bpfman.Programs.{LoadSpec}
use go_bpfman.Manager.World.{
  Call, Trace, World, ManagerEnv, LoadOutput, invoke, done, failed, load_program, publish_bytecode,
  unload_pin,
}
use go_bpfman.Manager.World.Since.{Since, Since-cons, after_call}
use go_bpfman.Manager.Executor.{execute}
use go_bpfman.Manager.Load.{loaded_key, run_load_plan}
use go_bpfman.Manager.Load.Left.{
  Within, Exactly, Within-closed, Exactly-closed, Within-removed, Exactly-loaded,
  Exactly-not_loaded,
}
use go_bpfman.Manager.Load.Cleanup.{AtMost}

module _ (env : ManagerEnv) (start : World) where
  -- Just these pins are left.
  abbrev pub Just : List Text → World → Type 0
  Just pins = Since start (Exactly env start pins)

  abbrev pub Bound : List Text → Bindings LoadOutput → World → Type 0
  Bound pins b w =
      (o : LoadOutput) × (get {T = LoadOutput} some loaded_key b ≡ ok o)
      × Just (o.pin_path ∷ pins) w

  load_refused :
      (spec : LoadSpec) (w : World) (e : Err)
      → env.fails w (load_program spec) ≡ some e
      → run_load_plan env spec w
        ≡ (err (wrap "load program" e), record w { trace = failed (load_program spec) e ∷ w.trace })
  unfolding run_load_plan build run execute invoke get
  load_refused spec w e f = ground (arith, f)

  load_published :
      (spec : LoadSpec) (w : World)
      → let o = env.output_of w.trace spec in
        let v : World = record w { trace = done (load_program spec) ∷ w.trace } in
        let c = publish_bytecode o.program_id spec.object_path in
        env.fails w (load_program spec) ≡ none
        → env.fails v c ≡ none
        → run_load_plan env spec w
          ≡ (ok ((loaded_key, o) ∷ []), record w { trace = done c ∷ v.trace })
  unfolding run_load_plan build run execute invoke get
  load_published spec w f g = ground (arith, f, g)

  load_unpublished :
      (spec : LoadSpec) (w : World) (e : Err)
      → let o = env.output_of w.trace spec in
        let v : World = record w { trace = done (load_program spec) ∷ w.trace } in
        let c = publish_bytecode o.program_id spec.object_path in
        let u : World = record w { trace = failed c e ∷ v.trace } in
        env.fails w (load_program spec) ≡ none
        → env.fails v c ≡ some e
        → run_load_plan env spec w ≡ (
          err e,
          after_call env (unload_pin o.maps_dir) (after_call env (unload_pin o.pin_path) u),
        )
  unfolding run_load_plan build run execute invoke get
  load_unpublished spec w e f g =
      let o = env.output_of w.trace spec in
      let v : World = record w { trace = done (load_program spec) ∷ w.trace } in
      let c = publish_bytecode o.program_id spec.object_path in
      let u : World = record w { trace = failed c e ∷ v.trace } in
      elim (Option-cases (env.fails u (unload_pin o.pin_path))) [
        | inl h ↦
            elim (Option-cases (
              env.fails (record u { trace = done (unload_pin o.pin_path) ∷ u.trace })
                (unload_pin o.maps_dir))) [
                  | inl k ↦ ground (arith, f, g, h, k)
                  | inr (d, k) ↦ ground (arith, f, g, h, k)
                ]
        | inr (b, h) ↦
            elim (Option-cases (
              env.fails (record u { trace = failed (unload_pin o.pin_path) b ∷ u.trace })
                (unload_pin o.maps_dir))) [
                  | inl k ↦ ground (arith, f, g, h, k)
                  | inr (d, k) ↦ ground (arith, f, g, h, k)
                ]
      ]

  after_call-Since :
      (P Q : Trace → Type 0) (c : Call) (w : World)
      → ((new : Trace) → P new → Q (done c ∷ new) × ((e : Err) → Q (failed c e ∷ new)))
      → Since start P w
      → Since start Q (after_call env c w)
  after_call-Since P Q c w f s = elim (Option-cases (env.fails w c)) [
    | inl h ↦ rw h (Since-cons start P Q (done c) w w.log (λ new k. (f new k).0) s)
    | inr (e, h) ↦ rw h (Since-cons start P Q (failed c e) w w.log (λ new k. (f new k).1 e) s)
  ]

  loaded_now :
      (spec : LoadSpec) (pins : List Text) (w : World)
      → Just pins w
      → Just
          ((env.output_of w.trace spec).pin_path ∷ pins)
          (record w { trace = done (load_program spec) ∷ w.trace })
  loaded_now spec pins w (new, p, h) =
      let pin = (env.output_of w.trace spec).pin_path in
      (
        done (load_program spec) ∷ new,
        ap (λ t. done (load_program spec) ∷ t) p,
        Exactly-loaded env start pin pins new spec
            (ap (λ t. (env.output_of t spec).pin_path) (sym p)) h,
      )

  removed :
      (pin maps : Text) (pins : List Text) (w : World)
      → AtMost env start (pin ∷ pins) w
      → AtMost env start pins (after_call env (unload_pin maps) (after_call env (unload_pin pin) w))
  removed pin maps pins w s =
      after_call-Since (Within env start pins) (Within env start pins) (unload_pin maps) _
        (λ new h. (
          Within-closed env start pins (done (unload_pin maps)) new tt h,
          λ e. Within-closed env start pins (failed (unload_pin maps) e) new tt h,
        ))
        (after_call-Since (Within env start (pin ∷ pins)) (Within env start pins) (unload_pin pin) w
          (λ new h. Within-removed env start pin pins new h) s)

  pub at_most : (pins : List Text) (w : World) → Just pins w → AtMost env start pins w
  at_most pins w (new, p, h) = (new, p, λ a. (h a).0)

  -- Where the plan fails, nothing that it loaded is left; where it succeeds, the program's pin is,
  -- and the key of the load is bound.
  pub run_load_plan-Settled :
      (spec : LoadSpec) (pins : List Text) (w : World)
      → Just pins w
      → Settled (λ _. AtMost env start pins) (Bound pins) (run_load_plan env spec w)
  unfolding get
  run_load_plan-Settled spec pins w s =
      let o = env.output_of w.trace spec in
      let v : World = record w { trace = done (load_program spec) ∷ w.trace } in
      let c = publish_bytecode o.program_id spec.object_path in
      let just = loaded_now spec pins w s in
      elim (Option-cases (env.fails w (load_program spec))) [
        | inr (e, f) ↦ rw (load_refused spec w e f) (
          tt,
          at_most pins (record w { trace = failed (load_program spec) e ∷ w.trace })
              (Since-cons start (Exactly env start pins) _ (failed (load_program spec) e) w w.log
                (λ new h. Exactly-not_loaded env start [] pins new spec e h) s),
        )
        | inl f ↦ elim (Option-cases (env.fails v c)) [
          | inl g ↦ rw (load_published spec w f g) (
            tt,
            (
              o,
              refl,
              Since-cons start (Exactly env start (o.pin_path ∷ pins)) _ (done c) v v.log
                  (λ new h. Exactly-closed env start (o.pin_path ∷ pins) (done c) new tt h) just,
            ),
          )
          | inr (e, g) ↦ rw (load_unpublished spec w e f g) (
            tt,
            removed o.pin_path o.maps_dir pins (record v { trace = failed c e ∷ v.trace })
                (at_most (o.pin_path ∷ pins) (record v { trace = failed c e ∷ v.trace })
                  (Since-cons start (Exactly env start (o.pin_path ∷ pins)) _ (failed c e) v v.log
                    (λ new h. Exactly-closed env start (o.pin_path ∷ pins) (failed c e) new tt h)
                    just)),
          )
        ]
      ]
