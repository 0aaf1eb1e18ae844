-- ===== src/Manager/Delete/Total/Links.antt =====
-- A batch deletion of links returns, with enough fuel, wherever the executor does.
use go_bpfman.Prelude.{ℕ, ◌<◌, Bool, List, [], ◌∷◌}
use go_bpfman.Exec.{Exec, pure, wrapping}
use go_bpfman.Exec.Total.{
  IsTotal, pure-IsTotal, on_error_where-IsTotal, bind-IsTotal, wrapping-IsTotal, attempt-IsTotal,
}
use go_bpfman.Links.{LinkRecord}
use go_bpfman.Manager.World.{World, ManagerEnv, list_links_by_program}
use go_bpfman.Manager.Order.{Dependents}
use go_bpfman.Manager.Detach.Total.{IsCalm, invoke-IsTotal, get_link-IsTotal, detach-IsTotal}
use go_bpfman.Manager.Delete.{Batch, delete_link, delete_each_link, delete_links, group_by_owner}
use go_bpfman.Manager.Delete.Total.{
  IsRanked, on_world-IsTotal, in_batch-IsTotal, skip_if-IsTotal, marked_link,
  delete_program-IsTotal, dependents-Returning,
}

module _ (env : ManagerEnv) (calm : IsCalm env) (dependents : Dependents) (rank : ℕ → ℕ)
    (acyclic : IsRanked rank dependents) where
  orphan-IsTotal :
      (m : Exec Batch (Unit {0})) (links : List LinkRecord)
      → IsTotal m
      → IsTotal (elim links [ [] ↦ wrapping "delete orphaned program" m | _ ∷ _ ↦ pure tt ])
  orphan-IsTotal m [] h = wrapping-IsTotal _ _ h
  orphan-IsTotal m (l ∷ links) h = pure-IsTotal _ _

  delete_link-IsTotal :
      (fuel : ℕ) (recursive : Bool) (id : ℕ)
      → ((a : ℕ) → rank a < fuel)
      → IsTotal (delete_link env fuel dependents recursive id)
  unfolding delete_link
  delete_link-IsTotal fuel recursive id h = skip_if-IsTotal _ _ _ (
      bind-IsTotal _ _ (wrapping-IsTotal _ _ (on_world-IsTotal _ (get_link-IsTotal env id))) λ link.
        bind-IsTotal _ _ (wrapping-IsTotal _ _ (on_world-IsTotal _ (detach-IsTotal env calm id)))
          λ _. bind-IsTotal _ _ (marked_link id) λ _.
            bind-IsTotal _ _
              (wrapping-IsTotal "list links for program" _ (
                on_world-IsTotal _ (
                  invoke-IsTotal env (list_links_by_program link.program_id)
                    (λ w. env.links_of w link.program_id))))
              λ links. orphan-IsTotal _ links (
                delete_program-IsTotal env calm dependents rank acyclic fuel link.program_id
                  recursive (h link.program_id)))

  delete_each_link-IsTotal :
      (fuel : ℕ) (recursive : Bool) (ids : List ℕ)
      → ((a : ℕ) → rank a < fuel)
      → IsTotal (delete_each_link env fuel dependents recursive ids)
  unfolding delete_each_link
  delete_each_link-IsTotal fuel recursive [] h = pure-IsTotal _ _
  delete_each_link-IsTotal fuel recursive (id ∷ ids) h =
      bind-IsTotal _ _
        (skip_if-IsTotal _ _ _ (attempt-IsTotal _ (delete_link-IsTotal fuel recursive id h)))
        λ error.
          bind-IsTotal _ _ (delete_each_link-IsTotal fuel recursive ids h)
            (λ results. pure-IsTotal _ _)

-- Where no action of the executor panics, and each program that shares the maps of another ranks
-- below its owner in every list of programs that the store may return, DeleteLinks returns: with
-- any fuel above every rank, from every world and for every choice of ids and options, it neither
-- runs out of fuel nor panics.
pub delete_links-IsTotal :
    (env : ManagerEnv) (rank : ℕ → ℕ) (fuel : ℕ) (ids : List ℕ) (recursive : Bool)
    → IsCalm env
    → ((w : World) → IsRanked rank (group_by_owner [] (env.programs_of w)))
    → ((a : ℕ) → rank a < fuel)
    → IsTotal (delete_links env fuel ids recursive)
unfolding delete_links
delete_links-IsTotal env rank fuel ids recursive calm ranked enough =
    on_error_where-IsTotal (IsRanked rank) _ _ _
      (dependents-Returning env calm rank ranked recursive) (λ e. pure-IsTotal _ _)
      λ dependents acyclic.
        in_batch-IsTotal _
          (delete_each_link-IsTotal env calm dependents rank acyclic fuel recursive ids enough)
