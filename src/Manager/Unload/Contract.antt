-- ===== src/Manager/Unload/Contract.antt =====
-- The failure contract of an unload: nothing is deleted before the point of no return, and behind it
-- only the deletion of the record may fail.
use go_bpfman.Prelude.{
  Text, true, ◌≡◌, refl, sym, ap, ◌∙◌, ◌⊎◌, inl, inr, List, [], ◌∷◌, ◌++◌, Option, none, some, In,
}
use mathlib.Core.Option.{some-injective}
use go_bpfman.Errors.{Err, wrap, joined, errors_join}
use go_bpfman.Exec.{Exec, pure, fail, proceed, dropped}
use go_bpfman.Exec.Ends.{Ends, Ends-bind, Ends-weaken, Ends-dropped, Ends-on_error}
use go_bpfman.Platform.{Key}
use go_bpfman.Links.{LinkRecord}
use go_bpfman.Layout.{program_dir}
use go_bpfman.Manager.World.{
  Event, done, failed, Trace, World, ManagerEnv, ProgramRecord, invoke, delete_program, unload_pin,
  remove_program_dir,
}
use go_bpfman.Manager.World.Since.{
  call_of, IsOther, NoDeletion, Since, Since-cons, invoke-Ends, invoke_keeps,
}
use go_bpfman.Manager.Detach.{collect_dispatcher_keys, cleanup_empty_dispatchers}
use go_bpfman.Manager.Unload.{
  cleanup_shared_map_pins, gc_map_set_if_unused, delete_record, map_set_id, after_unload,
  delete_keys,
}
use go_bpfman.Manager.Executor.Keeps.{Keeps-logged}
use go_bpfman.Manager.Unload.Keeps.{
  cleanup_shared_map_pins-Keeps, gc_map_set_if_unused-Keeps, cleanup_empty_dispatchers-Keeps,
}

-- The program's pin is gone, and no record is touched.
abbrev pub Unpinned : Text → Trace → Type 0
Unpinned pin new = NoDeletion new × In (done (unload_pin pin)) new

-- `ev` is the only attempt to delete a record, and it was made after the program's pin was gone.
abbrev pub Once : Text → Event → Trace → Type 0
Once pin ev new =
    (after : Trace) × (before : Trace) × (new ≡ after ++ ev ∷ before)
    × NoDeletion after
    × Unpinned pin before

pub NoDeletion-closed :
    (ev : Event) (new : Trace) → IsOther (call_of ev) → NoDeletion new → NoDeletion (ev ∷ new)
NoDeletion-closed ev new o h = (o, h)

Unpinned-closed :
    (pin : Text) (ev : Event) (new : Trace)
    → IsOther (call_of ev)
    → Unpinned pin new
    → Unpinned pin (ev ∷ new)
Unpinned-closed pin ev new o h = ((o, h.0), inr h.1)

Once-closed :
    (pin : Text) (e : Event) (ev : Event) (new : Trace)
    → IsOther (call_of ev)
    → Once pin e new
    → Once pin e (ev ∷ new)
Once-closed pin e ev new o (after, before, p, a, b) =
    (ev ∷ after, before, ap (λ t. ev ∷ t) p, (o, a), b)

module _ (env : ManagerEnv) (p : ProgramRecord) (start : World) where
  abbrev pub Deleted : World → Type 0
  Deleted = Since start (Once p.pin_path (done (delete_program p.program_id)))

  abbrev pub Undeleted : Err → World → Type 0
  Undeleted d = Since start (Once p.pin_path (failed (delete_program p.program_id) d))

  -- The errors that are collected, with what was done to the record.
  abbrev Collected : List Err → World → Type 0
  Collected errs w =
      ((errs ≡ []) × Deleted w)
      ⊎ ((d : Err) × (errs ≡ wrap "delete program record" d ∷ []) × Undeleted d w)

  delete_record-Collected :
      (w : World)
      → Since start (Unpinned p.pin_path) w
      → Ends (λ _ _. ⊥) Collected (delete_record env p w)
  unfolding delete_record
  delete_record-Collected w s =
      Ends-on_error Undeleted (λ _ _. ⊥) (λ _. Deleted) Collected
        (invoke env (delete_program p.program_id) (λ _. tt) w) _ _
        (invoke-Ends env Undeleted (λ _. Deleted) (delete_program p.program_id) (λ _. tt) w
          (Since-cons start (Unpinned p.pin_path) _ (done (delete_program p.program_id)) w w.log
            (λ new h. ([], new, refl, tt, h)) s)
          (λ d.
            Since-cons start (Unpinned p.pin_path) _ (failed (delete_program p.program_id) d) w
              w.log (λ new h. ([], new, refl, tt, h)) s))
        (λ d v u. inr (d, refl, u))
        λ _ v u.
          Ends-bind (λ _ _. ⊥) (λ _. Deleted) Collected
            (dropped (gc_map_set_if_unused env (map_set_id p) p.maps_dir v)) _
            (Ends-dropped (λ _. Deleted) (λ _ _. ⊥) (λ _. Deleted) Deleted _
              (gc_map_set_if_unused-Keeps env start _ (Once-closed p.pin_path _) (map_set_id p)
                p.maps_dir v u)
              (λ e t i. i) (λ a t i. i))
            (λ _ t i. inl (refl, i))

  -- What is left when the errors are collected.
  module _ (links : List LinkRecord) (rebuilt : List Key) (errs : List Err) where
    abbrev pub returned : Exec World (Unit {0})
    returned = elim (errors_join errs) [ none ↦ pure tt | some e ↦ fail e ]

    module _ (Q : Trace → Type 0)
        (closed : (ev : Event) (new : Trace) → IsOther (call_of ev) → Q new → Q (ev ∷ new)) where
      returned-Ends :
          (w : World)
          → Since start Q w
          → Ends
              (λ e v. (errors_join errs ≡ some e) × Since start Q v)
              (λ _ v. (errors_join errs ≡ none) × Since start Q v)
              (returned w)
      returned-Ends w s = go (errors_join errs) refl
        where
          go :
              (o : Option Err)
              → errors_join errs ≡ o
              → let step : Exec World (Unit {0}) = elim o [ none ↦ pure tt | some e ↦ fail e ] in
                Ends
                  (λ e v. (errors_join errs ≡ some e) × Since start Q v)
                  (λ _ v. (errors_join errs ≡ none) × Since start Q v)
                  (step w)
          go none e = (e, s)
          go (some d) e = (e, s)

      pub last_steps :
          (w : World)
          → Since start Q w
          → Ends
              (λ e v. (errors_join errs ≡ some e) × Since start Q v)
              (λ _ v. (errors_join errs ≡ none) × Since start Q v)
              (proceed
                (dropped
                  (invoke env (remove_program_dir (program_dir env.base p.program_id)) (λ _. tt) w))
                λ _ v.
                  proceed
                    (cleanup_empty_dispatchers env
                      (delete_keys rebuilt (collect_dispatcher_keys links))
                      v)
                    (λ _. returned))
      last_steps w s =
          let E : Err → World → Type 0 = λ e v. (errors_join errs ≡ some e) × Since start Q v in
          let R : Unit {0} → World → Type 0 = λ _ v. (errors_join errs ≡ none) × Since start Q v in
          Ends-bind E (λ _. Since start Q) R
            (dropped
              (invoke env (remove_program_dir (program_dir env.base p.program_id)) (λ _. tt) w))
            _
            (Keeps-logged start Q E _ (
              invoke_keeps env start Q closed
                (remove_program_dir (program_dir env.base p.program_id)) (λ _. tt) w tt s))
            λ _ v i.
              Ends-bind E (λ _. Since start Q) R
                (cleanup_empty_dispatchers env (delete_keys rebuilt (collect_dispatcher_keys links))
                  v)
                _
                (cleanup_empty_dispatchers-Keeps env start Q closed E
                  (delete_keys rebuilt (collect_dispatcher_keys links)) v i)
                (λ _ u j. returned-Ends u j)

  -- An unload that fails behind the point of no return.
  abbrev pub RecordLeft : Err → World → Type 0
  RecordLeft e w = (d : Err) × (e ≡ joined (wrap "delete program record" d)) × Undeleted d w

  pub after_unload-Ends :
      (links : List LinkRecord) (rebuilt : List Key) (w : World)
      → Since start (Unpinned p.pin_path) w
      → Ends RecordLeft (λ _. Deleted) (after_unload env p links true rebuilt w)
  unfolding after_unload errors_join
  after_unload-Ends links rebuilt w s =
      Ends-bind RecordLeft (λ _. Since start (Unpinned p.pin_path)) (λ _. Deleted)
        (dropped (cleanup_shared_map_pins env p.program_id w)) _
        (Keeps-logged start (Unpinned p.pin_path) RecordLeft _
          (cleanup_shared_map_pins-Keeps env start _ (Unpinned-closed p.pin_path) p.program_id w s))
        λ _ v i.
          Ends-bind RecordLeft Collected (λ _. Deleted) (delete_record env p v) _
            (Ends-weaken (λ _ _. ⊥) RecordLeft Collected Collected _ (delete_record-Collected v i)
              (λ e u h. absurd h) (λ a u h. h))
            λ errs u c. elim c [
              | inl (e, d) ↦
                  Ends-weaken _ RecordLeft _ (λ _. Deleted) _
                    (last_steps links rebuilt errs _ (Once-closed p.pin_path _) u d)
                    (λ x t h. absurd (cc (h.0, ap errors_join e))) (λ a t h. h.1)
              | inr (d, e, l) ↦
                  Ends-weaken _ RecordLeft _ (λ _. Deleted) _
                    (last_steps links rebuilt errs _ (Once-closed p.pin_path _) u l)
                    (λ x t h. (d, some-injective _ _ (sym h.0 ∙ ap errors_join e), h.1))
                    (λ a t h. absurd (cc (h.0, ap errors_join e)))
            ]
