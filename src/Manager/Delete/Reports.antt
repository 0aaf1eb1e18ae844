-- ===== src/Manager/Delete/Reports.antt =====
-- A batch deletion of programs reports what it did.
use go_bpfman.Prelude.{ℕ, Bool, ◌≡◌, refl, ap, List, [], ◌∷◌, map, Option, none, some, All}
use go_bpfman.Errors.{Err}
use go_bpfman.Exec.{pure, attempt}
use go_bpfman.Exec.Ends.{Ends, Ends-bind, Ends-if, Ends-caught}
use go_bpfman.Manager.World.{World, ManagerEnv}
use go_bpfman.Manager.Order.{Dependents}
use go_bpfman.Manager.Delete.{
  Batch, DeleteResult, skip_if, is_removed_program, delete_program, delete_each,
}
use go_bpfman.Manager.Delete.Deleted.{DeletedSince, Holds, ReturnsAsked}
use go_bpfman.Manager.Delete.Gone.{Gone, skipped, delete_program-Gone}

abbrev pub ids_of : List DeleteResult → List ℕ
ids_of results = map (λ r. r.id) results

module _ (start : World) where
  -- A result without an error names a program that was deleted since the batch began.
  abbrev pub ReportedAs : World → ℕ → Option Err → Type 0
  ReportedAs w id none = DeletedSince start id w
  ReportedAs w id (some e) = Unit {0}

  abbrev pub Reported : World → DeleteResult → Type 0
  Reported w r = ReportedAs w r.id r.error

module _ (env : ManagerEnv) (right : ReturnsAsked env) (start : World) where
  -- One program of the loop.
  reported_one :
      (kept : List ℕ) (fuel : ℕ) (dependents : Dependents) (id : ℕ) (recursive : Bool) (b : Batch)
      → Holds start kept b
      → Ends
          (λ _ _. ⊥)
          (λ error c. Holds start kept c × ReportedAs start c.world id error)
          (skip_if
            (is_removed_program id)
            none
            (attempt (delete_program env fuel dependents id recursive))
            b)
  reported_one kept fuel dependents id recursive b h =
      Ends-if (λ _ _. ⊥) (λ error c. Holds start kept c × ReportedAs start c.world id error)
        (is_removed_program id b) (pure none)
        (attempt (delete_program env fuel dependents id recursive)) b
        (λ e. skipped env right start kept id b h e)
        λ _.
          Ends-caught (λ _. Holds start kept) (λ _ _. ⊥) (λ _. Gone env right start kept id)
            (λ error c. Holds start kept c × ReportedAs start c.world id error)
            (delete_program env fuel dependents id recursive b)
            (delete_program-Gone env right start kept fuel dependents id recursive b h)
            (λ e c k. (k, tt)) (λ _ c k. k)

  -- What the loop has deleted so far, with the program of its last result.
  abbrev with_result : ℕ → Option Err → List ℕ → List ℕ
  with_result id none kept = id ∷ kept
  with_result id (some e) kept = kept

  Holds-with_result :
      (kept : List ℕ) (id : ℕ) (error : Option Err) (c : Batch)
      → Holds start kept c
      → ReportedAs start c.world id error
      → Holds start (with_result id error kept) c
  Holds-with_result kept id none c h r = record {
    since = h.since;
    deleted = (r, h.deleted);
    marked = h.marked;
  }
  Holds-with_result kept id (some e) c h r = h

  Reported_of_kept :
      (kept : List ℕ) (id : ℕ) (error : Option Err) (c : Batch)
      → Holds start (with_result id error kept) c
      → ReportedAs start c.world id error
  Reported_of_kept kept id none c h = h.deleted.0
  Reported_of_kept kept id (some e) c h = tt

  Holds-of_kept :
      (kept : List ℕ) (id : ℕ) (error : Option Err) (c : Batch)
      → Holds start (with_result id error kept) c
      → Holds start kept c
  Holds-of_kept kept id none c h = record {
    since = h.since;
    deleted = h.deleted.1;
    marked = h.marked;
  }
  Holds-of_kept kept id (some e) c h = h

  -- The loop returns a result for each id, in order.
  abbrev pub Results : List ℕ → List ℕ → List DeleteResult → Batch → Type 0
  Results kept ids results c =
      Holds start kept c × (ids_of results ≡ ids) × All (Reported start c.world) results

  pub delete_each-Results :
      (fuel : ℕ) (dependents : Dependents) (recursive : Bool) (ids kept : List ℕ) (b : Batch)
      → Holds start kept b
      → Ends (λ _ _. ⊥) (Results kept ids) (delete_each env fuel dependents recursive ids b)
  unfolding delete_each
  delete_each-Results fuel dependents recursive [] kept b h = (h, refl, tt)
  delete_each-Results fuel dependents recursive (id ∷ ids) kept b h =
      Ends-bind (λ _ _. ⊥) (λ error c. Holds start kept c × ReportedAs start c.world id error)
        (Results kept (id ∷ ids))
        (skip_if (is_removed_program id) none
          (attempt (delete_program env fuel dependents id recursive)) b)
        _ (reported_one kept fuel dependents id recursive b h)
        λ error c k.
          Ends-bind (λ _ _. ⊥) (Results (with_result id error kept) ids) (Results kept (id ∷ ids))
            (delete_each env fuel dependents recursive ids c) _
            (delete_each-Results fuel dependents recursive ids (with_result id error kept) c
              (Holds-with_result kept id error c k.0 k.1))
            λ results d r. (
              Holds-of_kept kept id error d r.0,
              ap (λ l. id ∷ l) r.1,
              (Reported_of_kept kept id error d r.0, r.2),
            )
