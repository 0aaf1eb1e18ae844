-- ===== src/Manager/Load/Saved.antt =====
-- Looking maps up and saving a batch leave every pin as it is.
use go_bpfman.Prelude.{ℕ, Text, ◌≡◌, refl, ap, List, [], ◌∷◌, ◌++◌, map, Option, none, some}
use go_bpfman.Errors.{Err, is_not_found}
use go_bpfman.Exec.{Outcome, ok, err, panic, Exec, pure, fail, wrapped, ◌>>=◌, ◌>>◌}
use go_bpfman.Exec.Ends.{Ends, Ends-bind, Ends-wrapped, Ends-on_error, Ends-if}
use go_bpfman.Programs.{LoadSpec}
use go_bpfman.Manager.World.{
  Call, World, ManagerEnv, KernelMap, invoke, invoke_unit, done, failed, get_map, begin_transaction,
  commit, rollback, wait_busy, list_records, save_program, save_shared_map_pins,
}
use go_bpfman.Manager.World
use go_bpfman.Manager.World.Since.{Since-cons, invoke-Ends}
use go_bpfman.Manager.Transaction.{rolled_back, run_transaction_attempt, run_in_transaction}
use go_bpfman.Manager.Reap.{Programs}
use go_bpfman.Manager.Load.{
  Loaded, lookup_maps, save_shared, save_item, save_items, save_batch, map_set_members,
}
use go_bpfman.Manager.Load.Left.{IsQuiet, Exactly, Exactly-closed}
use go_bpfman.Manager.Load.Cleanup.{pins_of}
use go_bpfman.Manager.Load.Plan.{Just}

abbrev pub specs_of : List Loaded → List LoadSpec
specs_of loaded = map (λ p. p.spec) loaded

-- The same programs, but for what their maps are used by.
abbrev pub Same : List Loaded → List Loaded → Type 0
Same loaded programs = (pins_of programs ≡ pins_of loaded) × (specs_of programs ≡ specs_of loaded)

module _ (env : ManagerEnv) (start : World) (pins : List Text) where
  abbrev I : World → Type 0
  I = Just env start pins

  -- What holds before holds after, however it ends.
  abbrev pub Calm : {A : Type 0} → Outcome A × World → Type 0
  Calm = Ends (λ _. I) (λ _. I)

  invoke-Calm :
      {A : Type 0} (c : Call) (value : World → A) (w : World)
      → IsQuiet env c
      → I w
      → Calm (invoke env c value w)
  invoke-Calm c value w q s =
      invoke-Ends env (λ _. I) (λ _. I) c value w
        (Since-cons start (Exactly env start pins) _ (done c) w w.log
          (λ new. Exactly-closed env start pins (done c) new q) s)
        (λ e.
          Since-cons start (Exactly env start pins) _ (failed c e) w w.log
            (λ new. Exactly-closed env start pins (failed c e) new q) s)

  -- No lookup that fails is an error.
  pub lookup_maps-Ends :
      (ids : List ℕ) (maps : List KernelMap) (w : World)
      → I w
      → Ends (λ _ _. ⊥) (λ _. I) (lookup_maps env ids maps w)
  unfolding lookup_maps
  lookup_maps-Ends [] maps w s = s
  lookup_maps-Ends (id ∷ ids) maps w s =
      Ends-on_error (λ _. I) (λ _ _. ⊥) (λ _. I) (λ _. I)
        (invoke env (get_map id) (λ v. env.map_of v id) w) _ _
        (invoke-Calm (get_map id) (λ v. env.map_of v id) w tt s)
        (λ e v i. lookup_maps-Ends ids maps v i)
        (λ m v i. lookup_maps-Ends ids (maps ++ m ∷ []) v i)

  save_shared-Calm :
      (id : ℕ) (names : List Text) (w : World) → I w → Calm (save_shared env id names w)
  unfolding save_shared
  save_shared-Calm id [] w s = s
  save_shared-Calm id (name ∷ names) w s =
      Ends-wrapped (λ _. I) (λ _. I) "save shared map pins for program" _
        (invoke-Calm (save_shared_map_pins id (name ∷ names)) (λ _. tt) w tt s)

  save_item-Calm : (it : Loaded) (w : World) → I w → Calm (save_item env it w)
  unfolding save_item
  save_item-Calm it w s =
      let id = it.output.program_id in
      Ends-on_error (λ _. I) (λ _. I) (λ _. I) (λ _. I)
        (invoke env (World.get_program id) (λ _. tt) w) _ _
        (invoke-Calm (World.get_program id) (λ _. tt) w tt s)
        (λ e v i.
          Ends-if (λ _. I) (λ _. I) (is_not_found e) _ _ v
            (λ _.
              Ends-bind (λ _. I) (λ _. I) (λ _. I)
                (wrapped "save program" (invoke env (save_program id it.saved) (λ _. tt) v)) _
                (Ends-wrapped (λ _. I) (λ _. I) "save program" _
                  (invoke-Calm (save_program id it.saved) (λ _. tt) v tt i))
                (λ _ u j. save_shared-Calm id it.output.shared_map_names u j))
            (λ _. i))
        (λ _ v i. i)

  save_items-Calm : (items : List Loaded) (w : World) → I w → Calm (save_items env items w)
  unfolding save_items
  save_items-Calm [] w s = s
  save_items-Calm (it ∷ items) w s =
      Ends-bind (λ _. I) (λ _. I) (λ _. I) (save_item env it w) _ (save_item-Calm it w s)
        (λ _ v i. save_items-Calm items v i)

  used-Same :
      (records : Programs) (loaded : List Loaded)
      → Same loaded (
          map {A = Loaded} {B = Loaded}
            (λ p. record p { map_used_by = map_set_members records p.saved.program_id })
            loaded)
  used-Same records [] = (refl, refl)
  used-Same records (p ∷ loaded) =
      let (a, b) = used-Same records loaded in
      (ap (λ l. p.saved.pin_path ∷ l) a, ap (λ l. p.spec ∷ l) b)

  -- What holds of the programs that a step of the batch returns.
  abbrev pub Kept : List Loaded → List Loaded → World → Type 0
  Kept loaded programs w = Same loaded programs × I w

  pub save_batch-Ends :
      (loaded : List Loaded) (w : World)
      → I w
      → Ends (λ _. I) (Kept loaded) (save_batch env loaded w)
  unfolding save_batch
  save_batch-Ends loaded w s =
      Ends-bind (λ _. I) (λ _. I) (Kept loaded) (save_items env loaded w) _
        (save_items-Calm loaded w s)
        λ _ v i.
          Ends-bind (λ _. I) (λ _. I) (Kept loaded)
            (wrapped "list programs for map users"
              (invoke env list_records (λ x. env.records_of x) v))
            _
            (Ends-wrapped (λ _. I) (λ _. I) "list programs for map users" _
              (invoke-Calm list_records (λ x. env.records_of x) v tt i))
            (λ records u j. (used-Same records loaded, j))

  rollback-Just : (v : World) → I v → I (invoke env rollback (λ _. tt) v).1
  unfolding invoke
  rollback-Just v i = go (env.fails v rollback)
    where
      go :
          (o : Option Err)
          → let r : Outcome (Unit {0}) × World = elim o [
            | none ↦ (ok tt, record v { trace = done rollback ∷ v.trace })
            | some e ↦ (err e, record v { trace = failed rollback e ∷ v.trace })
          ] in
            I r.1
      go none =
          Since-cons start (Exactly env start pins) _ (done rollback) v v.log
            (λ new. Exactly-closed env start pins (done rollback) new tt) i
      go (some e) =
          Since-cons start (Exactly env start pins) _ (failed rollback e) v v.log
            (λ new. Exactly-closed env start pins (failed rollback e) new tt) i

  module _ {A : Type 0} (Q : A → Type 0) (fn : Exec World A)
      (good : (w : World) → I w → Ends (λ _. I) (λ a v. Q a × I v) (fn w)) where
    rolled_back-Ends :
        (m : Exec World A) (w : World)
        → Ends (λ _. I) (λ a v. Q a × I v) (m w)
        → Ends (λ _. I) (λ a v. Q a × I v) (rolled_back env m w)
    unfolding rolled_back
    rolled_back-Ends m w h = go (m w) h
      where
        go :
            (r : Outcome A × World)
            → Ends (λ _. I) (λ a v. Q a × I v) r
            → Ends (λ _. I) (λ a v. Q a × I v) (r.0, (invoke env rollback (λ _. tt) r.1).1)
        go (ok a, v) (q, i) = (q, rollback-Just v i)
        go (err e, v) i = rollback-Just v i
        go (panic x, v) i = tt

    attempt-Ends :
        (w : World) → I w → Ends (λ _. I) (λ a v. Q a × I v) (run_transaction_attempt env fn w)
    unfolding run_transaction_attempt
    attempt-Ends w s =
        Ends-bind (λ _. I) (λ _. I) (λ a v. Q a × I v)
          (wrapped "failed to begin transaction" (invoke env begin_transaction (λ _. tt) w)) _
          (Ends-wrapped (λ _. I) (λ _. I) "failed to begin transaction" _
            (invoke-Calm begin_transaction (λ _. tt) w tt s))
          λ _ v i. rolled_back-Ends (fn >>= λ a. invoke_unit env commit >> pure a) v (
            Ends-bind (λ _. I) (λ a u. Q a × I u) (λ a u. Q a × I u) (fn v)
              (λ a. invoke_unit env commit >> pure a) (good v i)
              λ a u (q, j).
                Ends-bind (λ _. I) (λ _. I) (λ b t. Q b × I t) (invoke env commit (λ _. tt) u) _
                  (invoke-Calm commit (λ _. tt) u tt j) (λ _ t k. (q, k)))

    pub run_in_transaction-Ends :
        (backoffs : List ℕ) (w : World)
        → I w
        → Ends (λ _. I) (λ a v. Q a × I v) (run_in_transaction env backoffs fn w)
    unfolding run_in_transaction
    run_in_transaction-Ends [] w s = attempt-Ends w s
    run_in_transaction-Ends (b ∷ backoffs) w s =
        Ends-on_error (λ _. I) (λ _. I) (λ a v. Q a × I v) (λ a v. Q a × I v)
          (run_transaction_attempt env fn w) _ _ (attempt-Ends w s)
          (λ e v i.
            Ends-if (λ _. I) (λ a u. Q a × I u) (env.is_busy e) _ (fail e) v
              (λ _.
                Ends-bind (λ _. I) (λ _. I) (λ a u. Q a × I u)
                  (invoke env (wait_busy b) (λ _. tt) v) _
                  (invoke-Calm (wait_busy b) (λ _. tt) v tt i)
                  (λ _ u j. run_in_transaction-Ends backoffs u j))
              (λ _. i))
          (λ a v h. h)
