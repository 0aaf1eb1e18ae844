-- ===== src/Manager/Load/Rollback.antt =====
-- A batch is loaded as a whole or not at all.
use mathlib.Core.List.{reverse, reverse-cons, reverse-append, append-nil, append_assoc, map-append}
use go_bpfman.Prelude.{Text, ◌≡◌, refl, sym, ◌∙◌, ◌↔◌, ◌⊎◌, List, [], ◌∷◌, ◌++◌, In, arith}
use go_bpfman.Errors.{Err}
use go_bpfman.Exec.Ends.{Ends-weaken}
use go_bpfman.Exec.Total.{IsTotal}
use go_bpfman.Exec.Settled.{Settled, Settled-bind, Settled-on_error}
use go_bpfman.Programs.{LoadSpec}
use go_bpfman.Programs.Load.{LoadOpts}
use go_bpfman.Manager.World.{World, ManagerEnv, LoadOutput, KernelMap}
use go_bpfman.Manager.Transaction.{run_in_transaction}
use go_bpfman.Manager.Load.{
  Loaded, run_load_plan, lookup_maps, loaded_item, build_program_record, cleanup_loaded, abandoned,
  load_each, save_batch, load_body,
}
use go_bpfman.Manager.Load.Left.{left_pins}
use go_bpfman.Manager.Load.Cleanup.{pins_of, AtMost, cleanup_loaded-AtMost}
use go_bpfman.Manager.Load.Plan.{Just, Bound, run_load_plan-Settled, at_most}
use go_bpfman.Manager.Load.Saved.{
  specs_of, Same, Kept, lookup_maps-Ends, save_batch-Ends, run_in_transaction-Ends,
}
use go_bpfman.Manager.Load.Total.{
  NoKeys, cleanup_loaded-IsTotal, lookup_maps-IsTotal, save_batch-IsTotal,
  run_in_transaction-IsTotal,
}

In-append_iff : (a : Text) (xs ys : List Text) → In a (xs ++ ys) ↔ (In a xs ⊎ In a ys)
In-append_iff a [] ys = ground arith
In-append_iff a (x ∷ xs) ys = ground (arith, In-append_iff a xs ys)

pins_of-reverse :
    (loaded : List Loaded) (a : Text) → In a (pins_of (reverse loaded)) ↔ In a (pins_of loaded)
pins_of-reverse [] a = (λ i. i, λ i. i)
pins_of-reverse (p ∷ loaded) a =
    rw (reverse-cons p loaded, map-append (λ q. q.saved.pin_path) (reverse loaded) (p ∷ []))
      (ground (
        arith,
        In-append_iff a (pins_of (reverse loaded)) (p.saved.pin_path ∷ []),
        pins_of-reverse loaded a,
      ))

module _ (env : ManagerEnv) (start : World) (base : List Text) where
  -- All that was loaded for `loaded`, from the last to the first, is left.
  abbrev pub Stacked : List Loaded → World → Type 0
  Stacked loaded = Just env start (pins_of (reverse loaded) ++ base)

  -- The programs of all these specifications are loaded.
  abbrev pub AllLoaded : List LoadSpec → List Loaded → World → Type 0
  AllLoaded specs programs w = (specs_of programs ≡ specs) × Stacked programs w

module _ (env : ManagerEnv) (none_visited : NoKeys env) (start : World) (base : List Text) where
  abbrev NoneLeft : Err → World → Type 0
  NoneLeft _ = AtMost env start base

  abandoned-Settled :
      {A : Type 0} (Q : A → World → Type 0) (loaded : List Loaded) (e : Err) (w : World)
      → AtMost env start (pins_of (reverse loaded) ++ base) w
      → Settled NoneLeft Q (abandoned env loaded e w)
  unfolding abandoned IsTotal
  abandoned-Settled Q loaded e w s =
      Settled-bind NoneLeft (λ _. AtMost env start base) Q (cleanup_loaded env (reverse loaded) w) _
        (
          cleanup_loaded-IsTotal env none_visited (reverse loaded) w,
          Ends-weaken (λ _ _. ⊥) NoneLeft (λ _. AtMost env start base) (λ _. AtMost env start base)
              _ (cleanup_loaded-AtMost env start (reverse loaded) base w s) (λ _ v h. absurd h)
              (λ _ v h. h),
        )
        (λ _ v i. (tt, i))

  stacked :
      (opts : LoadOpts) (loaded : List Loaded) (spec : LoadSpec) (o : LoadOutput)
      (maps : List KernelMap) (w : World)
      → Just env start (o.pin_path ∷ pins_of (reverse loaded) ++ base) w
      → Stacked env start base (loaded ++ loaded_item env opts spec o maps ∷ []) w
  unfolding loaded_item build_program_record
  stacked opts loaded spec o maps w s =
      rw (reverse-append loaded (loaded_item env opts spec o maps ∷ [])) s

  specs_next :
      (opts : LoadOpts) (loaded : List Loaded) (spec : LoadSpec) (o : LoadOutput)
      (maps : List KernelMap) (specs : List LoadSpec)
      → specs_of (loaded ++ loaded_item env opts spec o maps ∷ []) ++ specs
        ≡ specs_of loaded ++ spec ∷ specs
  unfolding loaded_item
  specs_next opts loaded spec o maps specs =
      rw (map-append (λ p. p.spec) loaded (loaded_item env opts spec o maps ∷ []))
        (append_assoc (specs_of loaded) (spec ∷ []) specs)

  load_each-Settled :
      (opts : LoadOpts) (specs : List LoadSpec) (loaded : List Loaded) (w : World)
      → Stacked env start base loaded w
      → Settled NoneLeft
          (AllLoaded env start base (specs_of loaded ++ specs))
          (load_each env opts specs loaded w)
  unfolding load_each IsTotal
  load_each-Settled opts [] loaded w s = (tt, (sym (append-nil (specs_of loaded)), s))
  load_each-Settled opts (spec ∷ specs) loaded w s =
      let pins = pins_of (reverse loaded) ++ base in
      let R = AllLoaded env start base (specs_of loaded ++ spec ∷ specs) in
      Settled-on_error (λ _. AtMost env start pins) NoneLeft (Bound env start pins) R
        (run_load_plan env spec w) _ _ (run_load_plan-Settled env start spec pins w s)
        (λ e v i. abandoned-Settled R loaded e v i)
        λ b v (o, q, just). rw q (
          Settled-bind NoneLeft (λ _. Just env start (o.pin_path ∷ pins)) R
            (lookup_maps env o.map_ids [] v) _
            (
              lookup_maps-IsTotal env o.map_ids [] v,
              Ends-weaken (λ _ _. ⊥) NoneLeft (λ _. Just env start (o.pin_path ∷ pins))
                  (λ _. Just env start (o.pin_path ∷ pins)) _
                  (lookup_maps-Ends env start (o.pin_path ∷ pins) o.map_ids [] v just)
                  (λ _ u h. absurd h) (λ _ u h. h),
            )
            λ maps u i. rw (← specs_next opts loaded spec o maps specs) (
              load_each-Settled opts specs (loaded ++ loaded_item env opts spec o maps ∷ []) u
                (stacked opts loaded spec o maps u i)))

-- The pins left are those that were left at the start, and perhaps not all of these.
abbrev pub NoneAdded : ManagerEnv → World → World → Type 0
NoneAdded env start w = (a : Text) → In a (left_pins env w.trace) → In a (left_pins env start.trace)

-- The pins left are those that were left at the start and those of the programs.
abbrev pub Added : ManagerEnv → World → List Loaded → World → Type 0
Added env start programs w =
    (a : Text)
    → In a (left_pins env w.trace) ↔ (In a (pins_of programs) ⊎ In a (left_pins env start.trace))

module _ (env : ManagerEnv) (start : World) where
  AtMost-NoneAdded :
      (e : Err) (w : World) → AtMost env start (left_pins env start.trace) w → NoneAdded env start w
  AtMost-NoneAdded e w (new, p, h) a = rw p (h a)

  Stacked-Added :
      (loaded programs : List Loaded) (w : World)
      → Same loaded programs
      → Stacked env start (left_pins env start.trace) loaded w
      → Added env start programs w
  Stacked-Added loaded programs w same (new, p, h) a =
      rw (p, same.0)
        (ground (
          arith,
          h a,
          In-append_iff a (pins_of (reverse loaded)) (left_pins env start.trace),
          pins_of-reverse loaded a,
        ))

-- Where a range over no keys visits none, loadBody returns. If it returns an error, whatever step
-- failed and whatever failed while it cleaned up, it has tried to remove the pin of every program
-- that it loaded: no pin is left that was not left before it. If it returns none, it returns one
-- program for each specification, in their order, and just their pins are left beside those
-- that were left before it.
pub load_body-Settled :
    (env : ManagerEnv) (start : World) (opts : LoadOpts) (specs : List LoadSpec)
    → NoKeys env
    → Settled
        (λ _. NoneAdded env start)
        (λ programs w. (specs_of programs ≡ specs) × Added env start programs w)
        (load_body env opts specs start)
unfolding load_body IsTotal
load_body-Settled env start opts specs none_visited =
    let base = left_pins env start.trace in
    let R : List Loaded → World → Type 0 =
      λ programs w. (specs_of programs ≡ specs) × Added env start programs w in
    let (t, h) =
      load_each-Settled env none_visited start base opts specs [] start
        ([], refl, λ a. (λ i. i, λ i. i)) in
    Settled-bind (λ _. NoneAdded env start) (AllLoaded env start base specs) R
      (load_each env opts specs [] start) _
      (
        t,
        Ends-weaken (λ _. AtMost env start base) (λ _. NoneAdded env start)
            (AllLoaded env start base specs) (AllLoaded env start base specs)
            (load_each env opts specs [] start) h (AtMost-NoneAdded env start) (λ _ _ k. k),
      )
      λ loaded v (e, s).
        let pins = pins_of (reverse loaded) ++ base in
        Settled-on_error (λ _. Just env start pins) (λ _. NoneAdded env start)
          (Kept env start pins loaded) R
          (run_in_transaction env env.tx_retry_backoffs (save_batch env loaded) v) _ _
          (
            run_in_transaction-IsTotal env (save_batch env loaded) (save_batch-IsTotal env loaded)
                env.tx_retry_backoffs v,
            run_in_transaction-Ends env start pins (Same loaded) (save_batch env loaded)
                (λ u i. save_batch-Ends env start pins loaded u i) env.tx_retry_backoffs v s,
          )
          (λ x u i.
            let (k, l) =
              abandoned-Settled env none_visited start base R loaded x u
                (at_most env start pins u i) in
            (
              k,
              Ends-weaken (λ _. AtMost env start base) (λ _. NoneAdded env start) R R _ l
                  (AtMost-NoneAdded env start) (λ _ _ m. m),
            ))
          (λ programs u (same, i).
            (tt, (same.1 ∙ e, Stacked-Added env start loaded programs u same i)))
