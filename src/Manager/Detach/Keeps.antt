-- ===== src/Manager/Detach/Keeps.antt =====
-- A detach keeps what calls other than deletions of programs' records keep.
use go_bpfman.Prelude.{ℕ, List, [], ◌∷◌, Option}
use go_bpfman.Errors.{wrap, link_not_found, is_not_found}
use go_bpfman.Exec.{Outcome, ok, err, panic, fail, ◌>>=◌, proceed, wrapped}
use go_bpfman.Exec.Ends.{Ends-bind, Ends-if, Ends-on_error}
use go_bpfman.Platform.{Key}
use go_bpfman.Links.{LinkRecord}
use go_bpfman.Operation.{run0}
use go_bpfman.Operation.InTurn.{Labelled, in_turn, run0-in_turn}
use go_bpfman.Manager.World.{Event, Trace, World, ManagerEnv, invoke}
use go_bpfman.Manager.World
use go_bpfman.Manager.World.Since.{call_of, IsOther, Since, invoke_keeps}
use go_bpfman.Manager.Executor.{Action, execute}
use go_bpfman.Manager.Executor.Keeps.{Keeps, execute-Keeps}
use go_bpfman.Manager.Lookup.{get_link}
use go_bpfman.Manager.Detach.{dispatcher_key, detach_plan, detach, lift}
use go_bpfman.Manager.Detach.Plan.{detach_actions, detach_plan-ok}

module _ (env : ManagerEnv) (start : World) (P : Trace → Type 0)
    (closed : (ev : Event) (new : Trace) → IsOther (call_of ev) → P new → P (ev ∷ new)) where
  abbrev I : World → Type 0
  I = Since start P

  in_turn-Keeps :
      (actions : List (Labelled Action)) (w : World)
      → I w
      → Keeps start P (in_turn (Unit {0}) (execute env) actions w)
  in_turn-Keeps [] w i = i
  in_turn-Keeps (a ∷ rest) w i =
      Ends-bind (λ _. I) (λ _. I) (λ _. I) (execute env a.1 w) _
        (execute-Keeps env start P closed a.1 w i) (λ _ v j. in_turn-Keeps rest v j)

  pub get_link-Keeps : (id : ℕ) (w : World) → I w → Keeps start P (get_link env id w)
  unfolding get_link
  get_link-Keeps id w i =
      Ends-on_error (λ _. I) (λ _. I) (λ _. I) (λ _. I)
        (invoke env (World.get_link id) (λ v. env.link_of v id) w) _ _
        (invoke_keeps env start P closed (World.get_link id) (λ v. env.link_of v id) w tt i)
        (λ e v j.
          Ends-if (λ _. I) (λ _. I) (is_not_found e) (fail (link_not_found id))
            (fail (wrap "get link" e)) v (λ _. j) (λ _. j))
        (λ l v j. j)

  keyed :
      (link : LinkRecord) (r : Outcome (Option Key)) (w : World)
      → I w
      → Keeps start P (
          proceed
            (wrapped "extract dispatcher key" (lift r w))
            λ key. lift (detach_plan env link key) >>= λ plan. run0 (execute env) plan)
  keyed link (ok key) w i =
      rw
        (
          detach_plan-ok env link key,
          run0-in_turn (Unit {0}) (execute env) (detach_actions link key) w,
        )
        (in_turn-Keeps (detach_actions link key) w i)
  keyed link (err e) w i = i
  keyed link (panic m) w i = tt

  pub detach-Keeps : (id : ℕ) (w : World) → I w → Keeps start P (detach env id w)
  unfolding detach
  detach-Keeps id w i =
      Ends-bind (λ _. I) (λ _. I) (λ _. I) (get_link env id w) _ (get_link-Keeps id w i)
        (λ link v j. keyed link (dispatcher_key env link) v j)
