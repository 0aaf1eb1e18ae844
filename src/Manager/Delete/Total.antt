-- ===== src/Manager/Delete/Total.antt =====
-- A batch deletion returns, with enough fuel, wherever the executor does.
pub mod Links
use go_bpfman.Prelude.{
  ℕ, zero, suc, ◌<◌, refl, Bool, true, false, ◌||◌, List, [], ◌∷◌, In, inl, inr, length, ltb,
  Option, none, some, if◌then◌else◌, arith,
}
use go_bpfman.Errors.{Err}
use go_bpfman.Exec.{Exec, Outcome, ok, err, panic, pure, proceed, wrapped}
use go_bpfman.Exec.Total.{
  IsTotal, Returned, pure-IsTotal, on_error_where-IsTotal, Returning, if-IsTotal, bind-IsTotal,
  wrapping-IsTotal, attempt-IsTotal,
}
use go_bpfman.Links.{LinkRecord}
use go_bpfman.Manager.World.{World, ManagerEnv, invoke, done, failed, list_programs}
use go_bpfman.Manager.Order.{Dependents, dependents_of, order_program_deletes}
use go_bpfman.Manager.Order.Correct.{order_program_deletes_total}
use go_bpfman.Manager.Detach.Total.{IsCalm, invoke-IsTotal, detach-IsTotal}
use go_bpfman.Manager.Unload.Total.{unload_program-IsTotal}
use go_bpfman.Manager.Delete.{
  Batch, on_world, on_batch, skip_if, is_removed_program, mark_program, mark_link, detach_links,
  delete_dependents, delete_alone, delete_program, delete_each, in_batch, delete_ordered,
  delete_programs, group_by_owner, program_dependents_by_owner,
}

pub on_world-IsTotal : {A : Type 0} (m : Exec World A) → IsTotal m → IsTotal (on_world m)
unfolding on_world IsTotal
on_world-IsTotal {A} m h b = go (m b.world) (h b.world)
  where
    go : (r : Outcome A × World) → Returned r → Returned (on_batch b r)
    go (ok a, v) k = tt
    go (err e, v) k = tt
    go (panic m, v) k = k

pub in_batch-IsTotal : {A : Type 0} (m : Exec Batch A) → IsTotal m → IsTotal (in_batch m)
unfolding in_batch IsTotal
in_batch-IsTotal {A} m h w = go (m _) (h _)
  where
    go : (r : Outcome A × Batch) → Returned r → Returned (r.0, r.1.world)
    go (ok a, v) k = tt
    go (err e, v) k = tt
    go (panic m, v) k = k

pub skip_if-IsTotal :
    {A : Type 0} (test : Batch → Bool) (a : A) (m : Exec Batch A)
    → IsTotal m
    → IsTotal (skip_if test a m)
unfolding IsTotal
skip_if-IsTotal {A} test a m h b = go (test b)
  where
    go : (t : Bool) → Returned ((if t then pure a else m) b)
    go true = tt
    go false = h b

-- Each dependent ranks below its owner.
abbrev pub IsRanked : (ℕ → ℕ) → Dependents → Type 0
IsRanked rank dependents = (a d : ℕ) → In d (dependents_of dependents a) → rank d < rank a

none-IsRanked : (rank : ℕ → ℕ) → IsRanked rank []
unfolding dependents_of
none-IsRanked rank a d i = absurd i

marked_program : (id : ℕ) → IsTotal (mark_program id)
unfolding mark_program IsTotal
marked_program id b = tt

pub marked_link : (id : ℕ) → IsTotal (mark_link id)
unfolding mark_link IsTotal
marked_link id b = tt

module _ (env : ManagerEnv) (calm : IsCalm env) where
  detach_links-IsTotal : (links : List LinkRecord) → IsTotal (detach_links env links)
  unfolding detach_links
  detach_links-IsTotal [] = pure-IsTotal _ _
  detach_links-IsTotal (link ∷ links) =
      bind-IsTotal _ _ (wrapping-IsTotal _ _ (on_world-IsTotal _ (detach-IsTotal env calm link.id)))
        λ _. bind-IsTotal _ _ (marked_link link.id) (λ _. detach_links-IsTotal links)

  delete_alone-IsTotal : (id : ℕ) → IsTotal (delete_alone env id)
  unfolding delete_alone
  delete_alone-IsTotal id =
      bind-IsTotal _ _ (wrapping-IsTotal _ _ (on_world-IsTotal _ (invoke-IsTotal env _ _))) λ links.
        bind-IsTotal _ _ (detach_links-IsTotal links) λ _.
          bind-IsTotal _ _
            (wrapping-IsTotal _ _ (on_world-IsTotal _ (unload_program-IsTotal env calm id)))
            (λ _. marked_program id)

  delete_dependents-IsTotal :
      (delete : ℕ → Exec Batch (Unit {0})) (ds : List ℕ)
      → ((d : ℕ) → In d ds → IsTotal (delete d))
      → IsTotal (delete_dependents env delete ds)
  unfolding delete_dependents
  delete_dependents-IsTotal delete [] h = pure-IsTotal _ _
  delete_dependents-IsTotal delete (d ∷ ds) h =
      bind-IsTotal _ _ (skip_if-IsTotal _ _ _ (wrapping-IsTotal _ _ (h d (inl refl))))
        (λ _. delete_dependents-IsTotal delete ds (λ a i. h a (inr i)))

  module _ (dependents : Dependents) (rank : ℕ → ℕ) (acyclic : IsRanked rank dependents) where
    pub delete_program-IsTotal :
        (fuel id : ℕ) (recursive : Bool)
        → rank id < fuel
        → IsTotal (delete_program env fuel dependents id recursive)
    unfolding delete_program
    delete_program-IsTotal zero id recursive h = absurd (omega arith)
    delete_program-IsTotal (suc fuel) id recursive h = skip_if-IsTotal (is_removed_program id) _ _ (
        if-IsTotal recursive _ _
          (bind-IsTotal _ _
            (delete_dependents-IsTotal _ (dependents_of dependents id)
              λ d i. let below = acyclic id d i in delete_program-IsTotal fuel d true (omega arith))
            (λ _. delete_alone-IsTotal id))
          (delete_alone-IsTotal id))

    delete_each-IsTotal :
        (fuel : ℕ) (recursive : Bool) (ids : List ℕ)
        → ((a : ℕ) → rank a < fuel)
        → IsTotal (delete_each env fuel dependents recursive ids)
    unfolding delete_each
    delete_each-IsTotal fuel recursive [] h = pure-IsTotal _ _
    delete_each-IsTotal fuel recursive (id ∷ ids) h =
        bind-IsTotal _ _
          (skip_if-IsTotal _ _ _
            (attempt-IsTotal _ (delete_program-IsTotal fuel id recursive (h id))))
          λ error.
            bind-IsTotal _ _ (delete_each-IsTotal fuel recursive ids h)
              (λ results. pure-IsTotal _ _)

    ordered-IsTotal :
        (fuel : ℕ) (recursive : Bool) (ids : List ℕ)
        → ((a : ℕ) → rank a < fuel)
        → IsTotal
            (delete_ordered env fuel dependents recursive (order_program_deletes ids dependents))
    unfolding delete_ordered
    ordered-IsTotal fuel recursive ids h =
        let (ordered, p, _, _) = order_program_deletes_total ids dependents in
        rw p (in_batch-IsTotal _ (delete_each-IsTotal fuel recursive ordered h))

  module _ (rank : ℕ → ℕ)
      (ranked : (w : World) → IsRanked rank (group_by_owner [] (env.programs_of w))) where
    pub dependents-Returning :
        (ordered : Bool) (w : World)
        → Returning (IsRanked rank) (program_dependents_by_owner env ordered w)
    unfolding program_dependents_by_owner invoke
    dependents-Returning false w = none-IsRanked rank
    dependents-Returning true w = go (env.fails w list_programs)
      where
        step : Option Err → Outcome Dependents × World
        step o =
            proceed
              (wrapped "list programs" (elim o [
                | none ↦ (ok (env.programs_of w), record w { trace = done list_programs ∷ w.trace })
                | some e ↦ (err e, record w { trace = failed list_programs e ∷ w.trace })
              ]))
              (λ programs. pure (group_by_owner [] programs))

        go : (o : Option Err) → Returning (IsRanked rank) (step o)
        go none = ranked w
        go (some e) = tt

-- Where no action of the executor panics, and each program that shares the maps of another ranks
-- below its owner in every list of programs that the store may return, DeletePrograms returns: with
-- any fuel above every rank, from every world and for every choice of ids and options, it neither
-- runs out of fuel nor panics.
pub delete_programs-IsTotal :
    (env : ManagerEnv) (rank : ℕ → ℕ) (fuel : ℕ) (ids : List ℕ) (recursive all : Bool)
    → IsCalm env
    → ((w : World) → IsRanked rank (group_by_owner [] (env.programs_of w)))
    → ((a : ℕ) → rank a < fuel)
    → IsTotal (delete_programs env fuel ids recursive all)
unfolding delete_programs
delete_programs-IsTotal env rank fuel ids recursive all calm ranked enough =
    on_error_where-IsTotal (IsRanked rank) _ _ _
      (dependents-Returning env calm rank ranked (recursive || all || ltb 1 (length ids)))
      (λ e. pure-IsTotal _ _)
      (λ dependents acyclic.
        ordered-IsTotal env calm dependents rank acyclic fuel (recursive || all) ids enough)
