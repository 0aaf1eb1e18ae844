-- ===== src/Manager/Delete.antt =====
-- Deleting programs and links in batches (manager/delete.go). The deleteOutcome that the helpers
-- build is left out, since `DeletePrograms` and `DeleteLinks` discard it.
pub mod Deleted
pub mod Gone
pub mod Reports
pub mod Fuel
pub mod Programs
pub mod Total
use go_bpfman.Prelude.{
  ℕ, zero, suc, Bool, true, false, ◌||◌, List, [], ◌∷◌, map, Option, none, some, ltb, if◌then◌else◌,
  length,
}
use go_bpfman.Errors.{Err, wrap}
use go_bpfman.Exec.{
  Outcome, ok, err, panic, Exec, pure, fail, panics, ◌>>=◌, ◌>>◌, wrapping, attempt, on_error,
}
use go_bpfman.Links.{LinkRecord}
use go_bpfman.Manager.World.{
  World, ManagerEnv, ListedProgram, invoke, list_programs, list_links_by_program,
}
use go_bpfman.Manager.Order.{
  Dependents, dependents_of, add_dependent, contains, order_program_deletes,
}
use go_bpfman.Manager.Lookup.{get_link}
use go_bpfman.Manager.Detach.{detach}
use go_bpfman.Manager.Unload.{unload_program}

-- deleteBatch, whose maps the calls share, beside the world.
pub record Batch : Type 0 where
  pub world : World
  pub removed_programs : List ℕ
  pub removed_links : List ℕ

-- DeleteProgramResult and DeleteLinkResult
pub record DeleteResult : Type 0 where
  pub id : ℕ
  pub error : Option Err

on_batch : {A : Type 0} → Batch → Outcome A × World → Outcome A × Batch
on_batch b (r, w) = (r, record b { world = w })

-- A call of an operation of the manager.
unfoldable pub on_world : {A : Type 0} → Exec World A → Exec Batch A
unfolding on_batch
on_world m b = on_batch b (m b.world)

unfoldable pub mark_program : ℕ → Exec Batch (Unit {0})
mark_program id b = (ok tt, record b { removed_programs = id ∷ b.removed_programs })

unfoldable pub mark_link : ℕ → Exec Batch (Unit {0})
mark_link id b = (ok tt, record b { removed_links = id ∷ b.removed_links })

-- A batch in which nothing is removed yet.
unfoldable pub in_batch : {A : Type 0} → Exec Batch A → Exec World A
in_batch m w =
    let (r, b) = m (record { world = w; removed_programs = []; removed_links = [] }) in (r, b.world)

-- `if batch.removed...[id] { return skip }`, and what follows.
abbrev pub skip_if : {A : Type 0} → (Batch → Bool) → A → Exec Batch A → Exec Batch A
skip_if test skip m b = (if test b then pure skip else m) b

abbrev pub is_removed_program : ℕ → Batch → Bool
is_removed_program id b = contains b.removed_programs id

abbrev pub is_removed_link : ℕ → Batch → Bool
is_removed_link id b = contains b.removed_links id

-- The loop of programDependentsByOwner.
unfoldable pub group_by_owner : Dependents → List ListedProgram → Dependents
unfolding add_dependent
group_by_owner dependents [] = dependents
group_by_owner dependents (p ∷ programs) =
    group_by_owner
      (elim p.map_owner_id [
        | none ↦ dependents
        | some owner ↦ add_dependent owner p.program_id dependents
      ])
      programs

module _ (env : ManagerEnv) where
  -- programDependentsByOwner
  unfoldable pub program_dependents_by_owner : Bool → Exec World Dependents
  unfolding group_by_owner
  program_dependents_by_owner false = pure []
  program_dependents_by_owner true = do
    programs ← wrapping "list programs" (invoke env list_programs (λ w. env.programs_of w))
    pure (group_by_owner [] programs)

  -- ResolveDeleteProgramIDs
  unfoldable pub resolve_delete_program_ids : Bool → List ℕ → Exec World (List ℕ)
  resolve_delete_program_ids false explicit = pure explicit
  resolve_delete_program_ids true explicit = do
    programs ← wrapping "list programs" (invoke env list_programs (λ w. env.programs_of w))
    pure (map (λ p. p.program_id) programs)

  -- The loop over the links of a program.
  unfoldable pub detach_links : List LinkRecord → Exec Batch (Unit {0})
  unfolding on_world mark_link
  detach_links [] = pure tt
  detach_links (link ∷ links) = do
    wrapping "detach link" (on_world (detach env link.id))
    mark_link link.id
    detach_links links

  -- deleteDependents, where `delete` is deleteProgram.
  unfoldable pub delete_dependents : (ℕ → Exec Batch (Unit {0})) → List ℕ → Exec Batch (Unit {0})
  unfolding contains
  delete_dependents delete [] = pure tt
  delete_dependents delete (d ∷ ds) = do
    skip_if (is_removed_program d) tt (wrapping "delete dependent program" (delete d))
    delete_dependents delete ds

  -- The part of deleteProgram behind the dependents.
  unfoldable pub delete_alone : ℕ → Exec Batch (Unit {0})
  unfolding detach_links on_world mark_program
  delete_alone id = do
    links ←
        wrapping "list links"
          (on_world (invoke env (list_links_by_program id) (λ w. env.links_of w id)))
    detach_links links
    wrapping "unload" (on_world (unload_program env id))
    mark_program id

  -- deleteProgram. The fuel bounds the depth of the recursion over dependents, which does not end
  -- where they form a cycle; the panic stands for that.
  unfoldable pub delete_program : ℕ → Dependents → ℕ → Bool → Exec Batch (Unit {0})
  unfolding delete_dependents delete_alone dependents_of contains
  delete_program zero dependents id recursive = panics "endless recursion"
  delete_program (suc fuel) dependents id recursive = skip_if (is_removed_program id) tt (
      if recursive
      then delete_dependents (λ d. delete_program fuel dependents d true)
          (dependents_of dependents id)
        >> delete_alone id
      else delete_alone id)

  -- The loop of DeletePrograms.
  unfoldable pub delete_each : ℕ → Dependents → Bool → List ℕ → Exec Batch (List DeleteResult)
  unfolding delete_program contains
  delete_each fuel dependents recursive [] = pure []
  delete_each fuel dependents recursive (id ∷ ids) = do
    error ←
        skip_if (is_removed_program id) none (attempt (delete_program fuel dependents id recursive))
    results ← delete_each fuel dependents recursive ids
    pure (record { id = id; error = error } ∷ results)

  unfoldable pub all_failed : List ℕ → Err → List DeleteResult
  all_failed ids e = map (λ id. record { id = id; error = some e }) ids

  -- DeletePrograms, from the ordered ids on.
  unfoldable pub delete_ordered :
      ℕ → Dependents → Bool → Option (List ℕ) → Exec World (List DeleteResult)
  unfolding delete_each in_batch
  delete_ordered fuel dependents recursive none = panics "endless recursion"
  delete_ordered fuel dependents recursive (some ids) =
      in_batch (delete_each fuel dependents recursive ids)

  -- DeletePrograms
  unfoldable pub delete_programs : ℕ → List ℕ → Bool → Bool → Exec World (List DeleteResult)
  unfolding program_dependents_by_owner all_failed delete_ordered order_program_deletes
  delete_programs fuel ids recursive all =
      let expand = recursive || all in
      on_error (program_dependents_by_owner (expand || ltb 1 (length ids)))
        (λ e. pure (all_failed ids e))
        λ dependents. delete_ordered fuel dependents expand (order_program_deletes ids dependents)

  -- deleteLink
  unfoldable pub delete_link : ℕ → Dependents → Bool → ℕ → Exec Batch (Unit {0})
  unfolding on_world mark_link delete_program
  delete_link fuel dependents recursive id = skip_if (is_removed_link id) tt do
    link ← wrapping "get link" (on_world (get_link env id))
    wrapping "detach" (on_world (detach env id))
    mark_link id
    links ← wrapping "list links for program" (
        on_world (
          invoke env (list_links_by_program link.program_id) (λ w. env.links_of w link.program_id)))
    elim links [
      | [] ↦
          wrapping "delete orphaned program"
            (delete_program fuel dependents link.program_id recursive)
      | _ ∷ _ ↦ pure tt
    ]

  -- The loop of DeleteLinks; `deleteLink` tests once more what the loop tests.
  unfoldable pub delete_each_link : ℕ → Dependents → Bool → List ℕ → Exec Batch (List DeleteResult)
  unfolding delete_link contains
  delete_each_link fuel dependents recursive [] = pure []
  delete_each_link fuel dependents recursive (id ∷ ids) = do
    error ← skip_if (is_removed_link id) none (attempt (delete_link fuel dependents recursive id))
    results ← delete_each_link fuel dependents recursive ids
    pure (record { id = id; error = error } ∷ results)

  -- DeleteLinks
  unfoldable pub delete_links : ℕ → List ℕ → Bool → Exec World (List DeleteResult)
  unfolding program_dependents_by_owner all_failed delete_each_link in_batch
  delete_links fuel ids recursive =
      on_error (program_dependents_by_owner recursive) (λ e. pure (all_failed ids e))
        λ dependents. in_batch (delete_each_link fuel dependents recursive ids)
