-- ===== src/Manager/Detach/Total.antt =====
-- Detaching returns wherever the executor does.
use go_bpfman.Prelude.{ℕ, List, [], ◌∷◌, Option, none, some, Bool, true, false, if◌then◌else◌}
use go_bpfman.Errors.{Err}
use go_bpfman.Exec.{Outcome, ok, err, panic}
use go_bpfman.Exec.Total.{
  IsTotal, Returned, pure-IsTotal, fail-IsTotal, on_error-IsTotal, if-IsTotal, bind-IsTotal,
  wrapping-IsTotal, logged-IsTotal,
}
use go_bpfman.Platform.{Key}
use go_bpfman.Links.{
  LinkRecord, LinkDetails, TcDetails, TcDirection, ingress, egress, other, xdp_details, tc_details,
  tracepoint_details, kprobe_details, uprobe_details, fentry_details, fexit_details, tcx_details,
}
use go_bpfman.Operation.InTurn.{Labelled, in_turn, nodes, run0-in_turn}
use go_bpfman.Operation.{run0}
use go_bpfman.Manager.World.{World, ManagerEnv, Call, invoke}
use go_bpfman.Manager.World
use go_bpfman.Manager.Executor.{Action, execute}
use go_bpfman.Manager.Executor
use go_bpfman.Manager.Lookup.{get_link}
use go_bpfman.Manager.Detach.{
  has_dispatcher, is_unset, lift, extract_dispatcher_key, key_of_direction, dispatcher_key, detach,
  cleanup_each, cleanup_empty_dispatchers,
}
use go_bpfman.Manager.Detach.Plan.{detach_actions, detach_plan-ok}

-- No action of the executor panics.
abbrev pub IsCalm : ManagerEnv → Type 0
IsCalm env = (a : Action) → IsTotal (execute env a)

abbrev IsResult : {A : Type 0} → Outcome A → Type 0
IsResult (ok _) = Unit
IsResult (err _) = Unit
IsResult (panic _) = ⊥

lift-IsTotal : {A : Type 0} (r : Outcome A) → IsResult r → IsTotal (lift r)
unfolding IsTotal
lift-IsTotal (ok a) h w = tt
lift-IsTotal (err e) h w = tt
lift-IsTotal (panic m) h w = h

key_of_direction-IsResult : (t : TcDirection) (d : TcDetails) → IsResult (key_of_direction t d)
unfolding key_of_direction
key_of_direction-IsResult ingress d = tt
key_of_direction-IsResult egress d = tt
key_of_direction-IsResult (other _) d = tt

key-IsResult : (d : LinkDetails) → IsResult (extract_dispatcher_key d)
unfolding extract_dispatcher_key
key-IsResult (xdp_details d) = tt
key-IsResult (tc_details d) = key_of_direction-IsResult d.direction d
key-IsResult (tracepoint_details _ _) = tt
key-IsResult (kprobe_details _ _ _) = tt
key-IsResult (uprobe_details _ _ _ _ _ _) = tt
key-IsResult (fentry_details _) = tt
key-IsResult (fexit_details _) = tt
key-IsResult (tcx_details _ _ _ _ _ _ _) = tt

pub key-IsTotal : (d : LinkDetails) → IsTotal (lift (extract_dispatcher_key d))
key-IsTotal d = lift-IsTotal (extract_dispatcher_key d) (key-IsResult d)

module _ (env : ManagerEnv) where
  pub invoke-IsTotal : {A : Type 0} (c : Call) (value : World → A) → IsTotal (invoke env c value)
  unfolding invoke IsTotal
  invoke-IsTotal {A} c value w = go (env.fails w c)
    where
      step : Option Err → Outcome A × World
      step o = elim o [
        | none ↦ (ok (value w), record w { trace = World.done c ∷ w.trace })
        | some e ↦ (err e, record w { trace = World.failed c e ∷ w.trace })
      ]

      go : (o : Option Err) → Returned (step o)
      go none = tt
      go (some e) = tt

  pub get_link-IsTotal : (id : ℕ) → IsTotal (get_link env id)
  unfolding get_link
  get_link-IsTotal id =
      on_error-IsTotal _ _ _ (invoke-IsTotal (World.get_link id) _)
        (λ e. if-IsTotal _ _ _ (fail-IsTotal _ _ _) (fail-IsTotal _ _ _)) (λ a. pure-IsTotal _ a)

  dispatcher_key-IsTotal : (link : LinkRecord) → IsTotal (lift (dispatcher_key env link))
  unfolding dispatcher_key
  dispatcher_key-IsTotal link = lift-IsTotal (dispatcher_key env link) (
      go (has_dispatcher link.link_kind) (extract_dispatcher_key link.details)
        (key-IsResult link.details))
    where
      go :
          (b : Bool) (o : Outcome Key)
          → IsResult o
          → let key_of : Outcome Key → Outcome (Option Key) = λ p. elim p [
            | ok key ↦ ok (if is_unset key then none else some key)
            | err e ↦ err e
            | panic m ↦ panic m
          ] in
            IsResult (if b then key_of o else ok none)
      go false o h = tt
      go true (ok key) h = tt
      go true (err e) h = tt
      go true (panic m) h = h

module _ (env : ManagerEnv) (calm : IsCalm env) where
  in_turn-IsTotal :
      (actions : List (Labelled Action)) → IsTotal (in_turn (Unit {0}) (execute env) actions)
  in_turn-IsTotal [] = pure-IsTotal _ _
  in_turn-IsTotal (a ∷ rest) = bind-IsTotal _ _ (calm a.1) (λ _. in_turn-IsTotal rest)

  plan-IsTotal :
      (actions : List (Labelled Action))
      → IsTotal (run0 (execute env) (nodes (Unit {0}) (execute env) actions))
  unfolding IsTotal
  plan-IsTotal actions w =
      rw (run0-in_turn (Unit {0}) (execute env) actions w) (in_turn-IsTotal actions w)

  pub detach-IsTotal : (id : ℕ) → IsTotal (detach env id)
  unfolding detach
  detach-IsTotal id = bind-IsTotal _ _ (get_link-IsTotal env id) λ link.
      bind-IsTotal _ _ (wrapping-IsTotal _ _ (dispatcher_key-IsTotal env link))
        λ key. rw (detach_plan-ok env link key) (plan-IsTotal (detach_actions link key))

  cleanup_each-IsTotal : (keys : List Key) → IsTotal (cleanup_each env keys)
  unfolding cleanup_each
  cleanup_each-IsTotal [] = pure-IsTotal _ _
  cleanup_each-IsTotal (key ∷ keys) =
      bind-IsTotal _ _ (logged-IsTotal _ (calm (Executor.remove_dispatcher key)))
        (λ _. cleanup_each-IsTotal keys)

  pub cleanup-IsTotal : (keys : List Key) → IsTotal (cleanup_empty_dispatchers env keys)
  unfolding cleanup_empty_dispatchers IsTotal
  cleanup-IsTotal keys w = cleanup_each-IsTotal (env.order w keys) w
