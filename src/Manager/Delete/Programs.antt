-- ===== src/Manager/Delete/Programs.antt =====
-- `DeletePrograms` reports what it did, for every program that it was given.
use go_bpfman.Prelude.{
  ℕ, Bool, true, false, ◌||◌, ◌≡◌, refl, ap, ◌↔◌, List, [], ◌∷◌, All, In, length, ltb,
}
use go_bpfman.Errors.{Err}
use go_bpfman.Exec.{Outcome, ok, err, panic, wrapped}
use go_bpfman.Exec.Ends.{Ends, Ends-bind, Ends-on_error, Ends-wrapped}
use go_bpfman.Manager.World.{World, ManagerEnv, invoke, list_programs}
use go_bpfman.Manager.World.Since.{invoke_keeps}
use go_bpfman.Manager.Order.{Dependents}
use go_bpfman.Manager.Order.Correct.{order_program_deletes_total}
use go_bpfman.Manager.Delete.{
  Batch, DeleteResult, in_batch, delete_each, delete_ordered, delete_programs, all_failed,
  program_dependents_by_owner,
}
use go_bpfman.Manager.Delete.Deleted.{Grown, ReturnsAsked}
use go_bpfman.Manager.Delete.Reports.{ids_of, Reported, Results, delete_each-Results}

-- The results are those of `ids`, and each says what was done since `start`.
abbrev pub Reports : World → List ℕ → List DeleteResult → World → Type 0
Reports start ids results w =
    ((a : ℕ) → In a (ids_of results) ↔ In a ids) × All (Reported start w) results

module _ (env : ManagerEnv) where
  ids_of-all_failed : (ids : List ℕ) (e : Err) → ids_of (all_failed env ids e) ≡ ids
  unfolding all_failed
  ids_of-all_failed [] e = refl
  ids_of-all_failed (id ∷ ids) e = ap (λ l. id ∷ l) (ids_of-all_failed ids e)

  all_failed-Reported :
      (start w : World) (ids : List ℕ) (e : Err) → All (Reported start w) (all_failed env ids e)
  unfolding all_failed
  all_failed-Reported start w [] e = tt
  all_failed-Reported start w (id ∷ ids) e = (tt, all_failed-Reported start w ids e)

  all_failed-Reports :
      (start w : World) (ids : List ℕ) (e : Err) → Reports start ids (all_failed env ids e) w
  all_failed-Reports start w ids e =
      (λ a. rw (ids_of-all_failed ids e) (λ i. i, λ i. i), all_failed-Reported start w ids e)

  dependents-Grown :
      (ordered : Bool) (w : World)
      → Ends (λ _. Grown w) (λ _. Grown w) (program_dependents_by_owner env ordered w)
  unfolding program_dependents_by_owner
  dependents-Grown false w = ([], refl, tt)
  dependents-Grown true w =
      Ends-bind (λ _. Grown w) (λ _. Grown w) (λ _. Grown w)
        (wrapped "list programs" (invoke env list_programs (λ v. env.programs_of v) w)) _
        (Ends-wrapped (λ _. Grown w) (λ _. Grown w) "list programs" _
          (invoke_keeps env w (λ _. Unit {0}) (λ _ _ _ _. tt) list_programs (λ v. env.programs_of v)
            w tt ([], refl, tt)))
        (λ _ v g. g)

  module _ (right : ReturnsAsked env) (start : World) where
    in_batch-Reports :
        (fuel : ℕ) (dependents : Dependents) (recursive : Bool) (ids ordered : List ℕ) (w : World)
        → ((a : ℕ) → In a ordered ↔ In a ids)
        → Grown start w
        → Ends
            (λ _ _. ⊥)
            (Reports start ids)
            (in_batch (delete_each env fuel dependents recursive ordered) w)
    unfolding in_batch
    in_batch-Reports fuel dependents recursive ids ordered w same g =
        go (delete_each env fuel dependents recursive ordered empty) (
          delete_each-Results env right start fuel dependents recursive ordered [] empty
            (record { since = g; deleted = tt; marked = tt }))
      where
        empty : Batch
        empty = record { world = w; removed_programs = []; removed_links = [] }

        go :
            (r : Outcome (List DeleteResult) × Batch)
            → Ends (λ _ _. ⊥) (Results env right start [] ordered) r
            → Ends (λ _ _. ⊥) (Reports start ids) (r.0, r.1.world)
        go (ok results, b) (h, e, all) = (λ a. rw e (same a), all)
        go (err x, b) h = h
        go (panic m, b) h = tt

-- Where the store returns the record of the id that it is asked for, DeletePrograms never returns
-- an error of its own. Unless it panics, it returns results for exactly the programs that it was
-- given, and each result without an error names a program whose record was deleted since the call
-- began. This holds for every fuel, map of dependents and choice of options: with All, too, it is the
-- given programs that are deleted.
pub delete_programs-Reports :
    (env : ManagerEnv) (fuel : ℕ) (ids : List ℕ) (recursive all : Bool) (w : World)
    → ReturnsAsked env
    → Ends (λ _ _. ⊥) (Reports w ids) (delete_programs env fuel ids recursive all w)
unfolding delete_programs delete_ordered
delete_programs-Reports env fuel ids recursive all w right =
    Ends-on_error (λ _. Grown w) (λ _ _. ⊥) (λ _. Grown w) (Reports w ids)
      (program_dependents_by_owner env (recursive || all || ltb 1 (length ids)) w) _ _
      (dependents-Grown env (recursive || all || ltb 1 (length ids)) w)
      (λ e v g. all_failed-Reports env w v ids e)
      λ dependents v g.
        let (ordered, p, same, _) = order_program_deletes_total ids dependents in
        rw p (in_batch-Reports env right w fuel dependents (recursive || all) ids ordered v same g)
