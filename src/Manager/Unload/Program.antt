-- ===== src/Manager/Unload/Program.antt =====
-- `unload` and `Unload` against the failure contract.
use mathlib.Core.Path.{subst}
use go_bpfman.Prelude.{ℕ, true, ◌≡◌, refl, sym, ◌⊎◌, inl, inr, List, []}
use go_bpfman.Errors.{Err, wrap, program_not_found, is_not_found, is_program_not_found}
use go_bpfman.Exec.{fail, wrapped}
use go_bpfman.Exec.Ends.{Ends, Ends-wrapped, Ends-bind, Ends-weaken, Ends-on_error, Ends-if}
use go_bpfman.Links.{LinkRecord}
use go_bpfman.Manager.World.{
  done, failed, World, ManagerEnv, ProgramRecord, invoke, get_program, kernel_program, unload_pin,
  list_links_by_program,
}
use go_bpfman.Manager.World.Since.{NoDeletion, Since, Since-cons, invoke-Ends, invoke_keeps}
use go_bpfman.Manager.Lookup
use go_bpfman.Manager.Unload.{detach_all_links, after_unload, lookup_failed, unload, unload_program}
use go_bpfman.Manager.Unload.Keeps.{detach_all_links-Keeps}
use go_bpfman.Manager.Unload.Contract.{
  Unpinned, NoDeletion-closed, Deleted, RecordLeft, after_unload-Ends,
}

module _ (env : ManagerEnv) (start : World) where
  -- How an unload may fail: before any record is touched, or at the deletion of the record alone.
  abbrev pub Failed : ProgramRecord → Err → World → Type 0
  Failed p e w = Since start NoDeletion w ⊎ RecordLeft env p start e w

  unload-Ends :
      (p : ProgramRecord) (links : List LinkRecord) (w : World)
      → Since start NoDeletion w
      → Ends (Failed p) (λ _. Deleted env p start) (unload env p links true w)
  unfolding unload
  unload-Ends p links w s =
      Ends-bind (Failed p) (λ _. Since start NoDeletion) (λ _. Deleted env p start)
        (wrapped "detach links for program" (detach_all_links env [] links w)) _
        (Ends-wrapped (Failed p) (λ _. Since start NoDeletion) "detach links for program" _
          (Ends-weaken (λ _. Since start NoDeletion) _ (λ _. Since start NoDeletion) _ _
            (detach_all_links-Keeps env start NoDeletion NoDeletion-closed [] links w s)
            (λ e v i. inl i) (λ a v i. i)))
        λ rebuilt v i.
          Ends-bind (Failed p) (λ _. Since start (Unpinned p.pin_path)) (λ _. Deleted env p start)
            (wrapped "unload program" (invoke env (unload_pin p.pin_path) (λ _. tt) v)) _
            (Ends-wrapped (Failed p) (λ _. Since start (Unpinned p.pin_path)) "unload program" _
              (invoke-Ends env (λ e. Failed p (wrap "unload program" e))
                (λ _. Since start (Unpinned p.pin_path)) (unload_pin p.pin_path) (λ _. tt) v
                (Since-cons start NoDeletion _ (done (unload_pin p.pin_path)) v v.log
                  (λ new h. ((tt, h), inl refl)) i)
                (λ e. inl (
                  Since-cons start NoDeletion _ (failed (unload_pin p.pin_path) e) v v.log
                    (λ new h. (tt, h)) i))))
            λ _ u j.
              Ends-weaken (RecordLeft env p start) (Failed p) (λ _. Deleted env p start)
                (λ _. Deleted env p start) (after_unload env p links true rebuilt u)
                (after_unload-Ends env p start links rebuilt u j) (λ e t h. inr h) (λ a t h. h)

-- An unload of a recorded program that returns no error has made exactly one attempt to delete a
-- record, the program's own, which succeeded, after the program's pin was removed. If it returns an
-- error, then either no deletion of a record was attempted, or that of the program's own was, once
-- and after its pin was removed, and its failure is all that the error reports.
pub unload-Contract :
    (env : ManagerEnv) (p : ProgramRecord) (links : List LinkRecord) (w : World)
    → Ends (Failed env w p) (λ _. Deleted env p w) (unload env p links true w)
unload-Contract env p links w = unload-Ends env w p links w ([], refl, tt)

module _ (env : ManagerEnv) (id : ℕ) where
  -- The record that the store returns to a lookup at the start.
  abbrev pub recorded : World → ProgramRecord
  recorded start = env.program_of start id

  -- The contract of the program with that record.
  abbrev pub ProgramFailed : World → Err → World → Type 0
  ProgramFailed start e w =
      Since start NoDeletion w
      ⊎ (((recorded start).program_id ≡ id) × RecordLeft env (recorded start) start e w)

  abbrev pub ProgramDeleted : World → World → Type 0
  ProgramDeleted start w = ((recorded start).program_id ≡ id) × Deleted env (recorded start) start w

  lookup_failed-Ends :
      (start : World) (e : Err) (w : World)
      → Since start NoDeletion w
      → Ends (ProgramFailed start) (λ _. ProgramDeleted start) (lookup_failed env id e w)
  unfolding lookup_failed
  lookup_failed-Ends start e w s =
      Ends-if (ProgramFailed start) (λ _. ProgramDeleted start) (is_program_not_found e) _ _ w
        (λ _.
          Ends-on_error (λ _. Since start NoDeletion) (ProgramFailed start)
            (λ _. Since start NoDeletion) (λ _. ProgramDeleted start)
            (invoke env (kernel_program id) (λ _. tt) w) _ _
            (invoke_keeps env start NoDeletion NoDeletion-closed (kernel_program id) (λ _. tt) w tt
              s)
            (λ _ v i. inl i) (λ _ v i. inl i))
        (λ _. inl s)

  -- The lookup reads only, and finds the record of that time.
  abbrev Found : World → ProgramRecord → World → Type 0
  Found start p w = (recorded start ≡ p) × Since start NoDeletion w

  got_program :
      (start : World)
      → Ends (λ _. Since start NoDeletion) (Found start) (Lookup.get_program env id start)
  unfolding Lookup.get_program
  got_program start =
      Ends-on_error (λ _. Since start NoDeletion) (λ _. Since start NoDeletion) (Found start)
        (Found start) (invoke env (get_program id) (λ v. env.program_of v id) start) _ _
        (invoke-Ends env (λ _. Since start NoDeletion) (Found start) (get_program id)
          (λ v. env.program_of v id) start
          (
            refl,
            Since-cons start NoDeletion _ (done (get_program id)) start start.log (λ new h. (tt, h))
                ([], refl, tt),
          )
          (λ e.
            Since-cons start NoDeletion _ (failed (get_program id) e) start start.log
              (λ new h. (tt, h)) ([], refl, tt)))
        (λ e v i.
          Ends-if (λ _. Since start NoDeletion) (Found start) (is_not_found e)
            (fail (program_not_found id)) (fail (wrap "get program" e)) v (λ _. i) (λ _. i))
        (λ p v i. i)

-- Where the store returns the record of the id that it is asked for, an `Unload` that returns no
-- error has deleted that program's record, in exactly one attempt to delete a record, after the pin
-- that the record names was removed. If it returns an error, then either no deletion of a record was
-- attempted, or that of the program's own was, once and after the pin that the record names was
-- removed, and its failure is all that the error reports.
pub unload_program-Contract :
    (env : ManagerEnv) (id : ℕ) (w : World)
    → ((v : World) → (env.program_of v id).program_id ≡ id)
    → Ends (ProgramFailed env id w) (λ _. ProgramDeleted env id w) (unload_program env id w)
unfolding unload_program
unload_program-Contract env id w right =
    Ends-on_error (λ _. Since w NoDeletion) (ProgramFailed env id w) (Found env id w)
      (λ _. ProgramDeleted env id w) (Lookup.get_program env id w) _ _ (got_program env id w)
      (λ e v i. lookup_failed-Ends env id w e v i)
      λ p v found.
        Ends-bind (ProgramFailed env id w) (λ _. Since w NoDeletion) (λ _. ProgramDeleted env id w)
          (wrapped "list links for program"
            (invoke env (list_links_by_program id) (λ u. env.links_of u id) v))
          _
          (Ends-wrapped (ProgramFailed env id w) (λ _. Since w NoDeletion) "list links for program"
            _
            (Ends-weaken (λ _. Since w NoDeletion) _ (λ _. Since w NoDeletion)
              (λ _. Since w NoDeletion)
              (invoke env (list_links_by_program id) (λ u. env.links_of u id) v)
              (invoke_keeps env w NoDeletion NoDeletion-closed (list_links_by_program id)
                (λ u. env.links_of u id) v tt found.1)
              (λ e u i. inl i) (λ a u i. i)))
          λ links u i.
            Ends-weaken (Failed env w p) (ProgramFailed env id w) (λ _. Deleted env p w)
              (λ _. ProgramDeleted env id w) (unload env p links true u)
              (unload-Ends env w p links u i)
              (λ e t f. elim f [
                | inl j ↦ inl j
                | inr l ↦ inr (right w, subst (λ q. RecordLeft env q w e t) (sym found.0) l)
              ])
              (λ a t d. (right w, subst (λ q. Deleted env q w t) (sym found.0) d))
