-- ===== src/Manager/Delete/Deleted.antt =====
-- What a batch marks as removed has been deleted, whatever happens afterwards.
use mathlib.Core.List.{append_assoc}
use go_bpfman.Prelude.{
  ℕ, ◌≡◌, refl, sym, ap, ◌∙◌, inl, inr, List, [], ◌∷◌, ◌++◌, All, In, All-mono, In-append_left,
  In-append_right,
}
use go_bpfman.Exec.{Outcome, ok, err, panic, Exec}
use go_bpfman.Exec.Ends.{Ends, Ends-weaken}
use go_bpfman.Manager.World.{done, Trace, World, ManagerEnv, invoke, list_links_by_program}
use go_bpfman.Manager.World
use go_bpfman.Manager.World.Since.{Since, invoke_keeps}
use go_bpfman.Manager.Detach.{detach}
use go_bpfman.Manager.Detach.Keeps.{detach-Keeps}
use go_bpfman.Manager.Unload.{unload_program}
use go_bpfman.Manager.Unload.Program.{unload_program-Contract, ProgramFailed, ProgramDeleted}
use go_bpfman.Manager.Delete.{Batch, on_world}

-- Nothing is taken off the trace.
abbrev pub Grown : World → World → Type 0
Grown w v = Since w (λ _. Unit {0}) v

-- The record of the program was deleted since `start`.
abbrev pub DeletedSince : World → ℕ → World → Type 0
DeletedSince start id w = Since start (λ new. In (done (World.delete_program id)) new) w

pub DeletedSince-Grown :
    (start : World) (id : ℕ) (w v : World)
    → Grown w v
    → DeletedSince start id w
    → DeletedSince start id v
DeletedSince-Grown start id w v (more, p, _) (new, q, i) = (
  more ++ new,
  p ∙ ap (λ t. more ++ t) q ∙ sym (append_assoc more new start.trace),
  In-append_right _ more new i,
)

pub Grown-trans : (u v w : World) → Grown u v → Grown v w → Grown u w
Grown-trans u v w (new, q, _) (more, p, _) =
    (more ++ new, p ∙ ap (λ t. more ++ t) q ∙ sym (append_assoc more new u.trace), tt)

-- What was deleted since a later moment was deleted since an earlier one.
pub DeletedSince-earlier :
    (start : World) (id : ℕ) (w v : World)
    → Grown start w
    → DeletedSince w id v
    → DeletedSince start id v
DeletedSince-earlier start id w v (new, q, _) (more, p, i) = (
  more ++ new,
  p ∙ ap (λ t. more ++ t) q ∙ sym (append_assoc more new start.trace),
  In-append_left _ more new i,
)

-- The programs of `ids`, and each that the batch marks as removed, were deleted since `start`.
pub record Holds (start : World) (ids : List ℕ) (b : Batch) : Type 0 where
  pub since : Grown start b.world
  pub deleted : All (λ id. DeletedSince start id b.world) ids
  pub marked : All (λ id. DeletedSince start id b.world) b.removed_programs

-- The store returns the record of the id that it is asked for.
abbrev pub ReturnsAsked : ManagerEnv → Type 0
ReturnsAsked env = (id : ℕ) (w : World) → (env.program_of w id).program_id ≡ id

module _ (env : ManagerEnv) where
  pub detach-Grown : (id : ℕ) (w : World) → Ends (λ _. Grown w) (λ _. Grown w) (detach env id w)
  detach-Grown id w = detach-Keeps env w (λ _. Unit {0}) (λ _ _ _ _. tt) id w ([], refl, tt)

  pub links-Grown :
      (id : ℕ) (w : World)
      → Ends
          (λ _. Grown w)
          (λ _. Grown w)
          (invoke env (list_links_by_program id) (λ v. env.links_of v id) w)
  links-Grown id w =
      invoke_keeps env w (λ _. Unit {0}) (λ _ _ _ _. tt) (list_links_by_program id)
        (λ v. env.links_of v id) w tt ([], refl, tt)

  -- An unload that returns no error has deleted the program.
  pub unload_program-Grown :
      ReturnsAsked env
      → (id : ℕ) (w : World)
      → Ends (λ _. Grown w) (λ _ v. Grown w v × DeletedSince w id v) (unload_program env id w)
  unload_program-Grown right id w =
      Ends-weaken (ProgramFailed env id w) (λ _. Grown w) (λ _. ProgramDeleted env id w)
        (λ _ v. Grown w v × DeletedSince w id v) (unload_program env id w)
        (unload_program-Contract env id w (right id))
        (λ e v f. elim f [
          | inl (new, p, _) ↦ (new, p, tt)
          | inr (_, (_, _, (new, p, _))) ↦ (new, p, tt)
        ])
        λ _ v (same, (new, p, (after, before, q, _, _))). (
          (new, p, tt),
          (
            new,
            p,
            rw q (
                In-append_right _ after
                  (done (World.delete_program (env.program_of w id).program_id) ∷ before)
                  (inl (ap (λ i. done (World.delete_program i)) (sym same)))),
          ),
        )

  module _ (start : World) (ids : List ℕ) where
    abbrev pub Kept : {A : Type 0} → Outcome A × Batch → Type 0
    Kept = Ends (λ _. Holds start ids) (λ _. Holds start ids)

    Holds-Grown :
        (b : Batch) (v : World)
        → Grown b.world v
        → Holds start ids b
        → Holds start ids (record b { world = v })
    Holds-Grown b v g h = record {
      since = Grown-trans start b.world v h.since g;
      deleted = All-mono _ _ ids (λ id. DeletedSince-Grown start id b.world v g) h.deleted;
      marked =
          All-mono _ _ b.removed_programs (λ id. DeletedSince-Grown start id b.world v g) h.marked;
    }

    -- An operation on the world keeps what is deleted.
    pub on_world-Kept :
        {A : Type 0} (Q : A → World → Type 0) (m : Exec World A) (b : Batch)
        → Holds start ids b
        → Ends (λ _. Grown b.world) (λ a v. Grown b.world v × Q a v) (m b.world)
        → Ends (λ _. Holds start ids) (λ a c. Holds start ids c × Q a c.world) (on_world m b)
    unfolding on_world
    on_world-Kept {A} Q m b h e = go (m b.world) e
      where
        go :
            (r : Outcome A × World)
            → Ends (λ _. Grown b.world) (λ a v. Grown b.world v × Q a v) r
            → Ends
                (λ _. Holds start ids)
                (λ a c. Holds start ids c × Q a c.world)
                (r.0, record b { world = r.1 })
        go (ok a, v) (g, q) = (Holds-Grown b v g h, q)
        go (err x, v) g = Holds-Grown b v g h
        go (panic x, v) g = tt
