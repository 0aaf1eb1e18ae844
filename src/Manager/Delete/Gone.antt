-- ===== src/Manager/Delete/Gone.antt =====
-- Each step of a batch keeps what was deleted, and a program that is deleted without an error is gone.
use go_bpfman.Prelude.{ℕ, zero, suc, Bool, true, ◌≡◌, List, [], ◌∷◌, All-In}
use go_bpfman.Exec.{Exec, pure, wrapped, wrapping}
use go_bpfman.Exec.Ends.{Ends, Ends-wrapped, Ends-bind, Ends-if, Ends-weaken}
use go_bpfman.Links.{LinkRecord}
use go_bpfman.Manager.World.{World, ManagerEnv, invoke, list_links_by_program}
use go_bpfman.Manager.Order.{Dependents, dependents_of}
use go_bpfman.Manager.Order.Members.{contains-iff-In}
use go_bpfman.Manager.Detach.{detach}
use go_bpfman.Manager.Unload.{unload_program}
use go_bpfman.Manager.Delete.{
  Batch, on_world, mark_program, mark_link, skip_if, is_removed_program, detach_links,
  delete_dependents, delete_alone, delete_program,
}
use go_bpfman.Manager.Delete.Deleted.{
  Grown, DeletedSince, DeletedSince-earlier, Holds, ReturnsAsked, Kept, on_world-Kept, detach-Grown,
  links-Grown, unload_program-Grown,
}

module _ (env : ManagerEnv) (right : ReturnsAsked env) (start : World) where
  module _ (kept : List ℕ) where
    abbrev pub H : Batch → Type 0
    H = Holds start kept

    detach_links-Kept :
        (links : List LinkRecord) (b : Batch) → H b → Kept env start kept (detach_links env links b)
    unfolding detach_links mark_link
    detach_links-Kept [] b h = h
    detach_links-Kept (link ∷ links) b h =
        Ends-bind (λ _. H) (λ _ c. H c × Unit {0}) (λ _. H)
          (wrapped "detach link" (on_world (detach env link.id) b)) _
          (Ends-wrapped (λ _. H) (λ _ c. H c × Unit {0}) "detach link" _
            (on_world-Kept env start kept (λ _ _. Unit {0}) (detach env link.id) b h
              (Ends-weaken (λ _. Grown b.world) (λ _. Grown b.world) (λ _. Grown b.world) _
                (detach env link.id b.world) (detach-Grown env link.id b.world) (λ _ _ g. g)
                (λ _ _ g. (g, tt)))))
          λ _ c k.
            detach_links-Kept links (record c { removed_links = link.id ∷ c.removed_links })
              (record { since = k.0.since; deleted = k.0.deleted; marked = k.0.marked })

    -- The program is deleted, and all else that was.
    abbrev pub Gone : ℕ → Batch → Type 0
    Gone id b = H b × DeletedSince start id b.world

    delete_alone-Gone :
        (id : ℕ) (b : Batch) → H b → Ends (λ _. H) (λ _. Gone id) (delete_alone env id b)
    unfolding delete_alone mark_program
    delete_alone-Gone id b h =
        Ends-bind (λ _. H) (λ _ c. H c × Unit {0}) (λ _. Gone id)
          (wrapped "list links"
            (on_world (invoke env (list_links_by_program id) (λ w. env.links_of w id)) b))
          _
          (Ends-wrapped (λ _. H) (λ _ c. H c × Unit {0}) "list links" _
            (on_world-Kept env start kept (λ _ _. Unit {0})
              (invoke env (list_links_by_program id) (λ w. env.links_of w id)) b h
              (Ends-weaken (λ _. Grown b.world) (λ _. Grown b.world) (λ _. Grown b.world) _
                (invoke env (list_links_by_program id) (λ w. env.links_of w id) b.world)
                (links-Grown env id b.world) (λ _ _ g. g) (λ _ _ g. (g, tt)))))
          λ links c k.
            Ends-bind (λ _. H) (λ _. H) (λ _. Gone id) (detach_links env links c) _
              (detach_links-Kept links c k.0)
              λ _ d l.
                Ends-bind (λ _. H) (λ _. Gone id) (λ _. Gone id)
                  (wrapped "unload" (on_world (unload_program env id) d)) _
                  (Ends-wrapped (λ _. H) (λ _. Gone id) "unload" _
                    (on_world-Kept env start kept (λ _. DeletedSince start id)
                      (unload_program env id) d l
                      (Ends-weaken (λ _. Grown d.world) (λ _. Grown d.world)
                        (λ _ v. Grown d.world v × DeletedSince d.world id v) _
                        (unload_program env id d.world) (unload_program-Grown env right id d.world)
                        (λ _ _ g. g)
                        (λ _ v g. (g.0, DeletedSince-earlier start id d.world v l.since g.1)))))
                  λ _ e m. (
                    record { since = m.0.since; deleted = m.0.deleted; marked = (m.1, m.0.marked) },
                    m.1,
                  )

    -- A program that is skipped was deleted before.
    pub skipped : (id : ℕ) (b : Batch) → H b → is_removed_program id b ≡ true → Gone id b
    skipped id b h e = (
      h,
      All-In (λ j. DeletedSince start j b.world) id b.removed_programs h.marked
          ((contains-iff-In b.removed_programs id).0 e),
    )

    delete_dependents-Kept :
        (delete : ℕ → Exec Batch (Unit {0}))
        → ((d : ℕ) (b : Batch) → H b → Kept env start kept (delete d b))
        → (ds : List ℕ) (b : Batch) → H b
        → Kept env start kept (delete_dependents env delete ds b)
    unfolding delete_dependents
    delete_dependents-Kept delete one [] b h = h
    delete_dependents-Kept delete one (d ∷ ds) b h =
        Ends-bind (λ _. H) (λ _. H) (λ _. H)
          (skip_if (is_removed_program d) tt (wrapping "delete dependent program" (delete d)) b) _
          (Ends-if (λ _. H) (λ _. H) (is_removed_program d b) (pure tt)
            (wrapping "delete dependent program" (delete d)) b (λ _. h)
            (λ _.
              Ends-wrapped (λ _. H) (λ _. H) "delete dependent program" (delete d b) (one d b h)))
          (λ _ c k. delete_dependents-Kept delete one ds c k)

    pub delete_program-Gone :
        (fuel : ℕ) (dependents : Dependents) (id : ℕ) (recursive : Bool) (b : Batch)
        → H b
        → Ends (λ _. H) (λ _. Gone id) (delete_program env fuel dependents id recursive b)
    unfolding delete_program
    delete_program-Gone zero dependents id recursive b h = tt
    delete_program-Gone (suc fuel) dependents id recursive b h =
        Ends-if (λ _. H) (λ _. Gone id) (is_removed_program id b) (pure tt) _ b (skipped id b h)
          λ _.
            Ends-if (λ _. H) (λ _. Gone id) recursive _ (delete_alone env id) b
              (λ _.
                Ends-bind (λ _. H) (λ _. H) (λ _. Gone id)
                  (delete_dependents env (λ d. delete_program env fuel dependents d true)
                    (dependents_of dependents id) b)
                  _
                  (delete_dependents-Kept (λ d. delete_program env fuel dependents d true)
                    (λ d c k.
                      Ends-weaken (λ _. H) (λ _. H) (λ _. Gone d) (λ _. H)
                        (delete_program env fuel dependents d true c)
                        (delete_program-Gone fuel dependents d true c k) (λ _ _ g. g)
                        (λ _ _ g. g.0))
                    (dependents_of dependents id) b h)
                  (λ _ c k. delete_alone-Gone id c k))
              (λ _. delete_alone-Gone id b h)
