-- ===== src/Manager/Detach/Plan.antt =====
-- What a detach does: its actions in order, up to the first that fails.
use go_bpfman.Prelude.{ℕ, Text, ◌≡◌, refl, List, [], ◌∷◌, ◌++◌, Option, none, some}
use go_bpfman.Exec.{ok}
use go_bpfman.Platform.{Key}
use go_bpfman.Links.{LinkRecord}
use go_bpfman.Operation.InTurn.{Labelled, nodes, in_turn, run0-in_turn, build-nodes}
use go_bpfman.Manager.World.{World, ManagerEnv}
use go_bpfman.Manager.Executor.{Action, execute}
use go_bpfman.Manager.Executor
use go_bpfman.Manager.Lookup.{get_link}
use go_bpfman.Manager.Detach.{detach_node, store_node, detach_plan, dispatcher_key, detach}

-- The kernel's detach of a pinned link.
abbrev pub kernel_actions : Option Text → List (Labelled Action)
kernel_actions none = []
kernel_actions (some path) = ("detach-link", Executor.detach_link path) ∷ []

-- The store's side: a dispatcher is rebuilt without its member, another link is deleted.
abbrev pub store_action : ℕ → Option Key → Labelled Action
store_action id none = ("delete-link", Executor.delete_link id)
store_action id (some key) = ("dispatcher-rebuild", Executor.rebuild_dispatcher_for_detach key id)

abbrev pub detach_actions : LinkRecord → Option Key → List (Labelled Action)
detach_actions link key = kernel_actions link.pin_path ++ store_action link.id key ∷ []

module _ (env : ManagerEnv) where
  plan_nodes :
      (pin : Option Text) (id : ℕ) (key : Option Key)
      → detach_node env pin ++ store_node env id key ∷ []
        ≡ nodes (Unit {0}) (execute env) (kernel_actions pin ++ store_action id key ∷ [])
  unfolding detach_node store_node
  plan_nodes none id none = refl
  plan_nodes none id (some key) = refl
  plan_nodes (some path) id none = refl
  plan_nodes (some path) id (some key) = refl

  pub detach_plan-ok :
      (link : LinkRecord) (key : Option Key)
      → detach_plan env link key ≡ ok (nodes (Unit {0}) (execute env) (detach_actions link key))
  unfolding detach_plan
  detach_plan-ok link key =
      rw (plan_nodes link.pin_path link.id key)
        (build-nodes (Unit {0}) (execute env) (detach_actions link key))

-- Once the link is found and its key extracted, a detach is the kernel's detach of the link's pin,
-- if it is pinned, and then, only if that succeeded, the rebuild of the link's dispatcher, or the
-- deletion of the link's record where no dispatcher serves it. It returns the first error, and
-- rolls nothing back.
pub detach-in_turn :
    (env : ManagerEnv) (id : ℕ) (w v : World) (link : LinkRecord) (key : Option Key)
    → get_link env id w ≡ (ok link, v)
    → dispatcher_key env link ≡ ok key
    → detach env id w ≡ in_turn (Unit {0}) (execute env) (detach_actions link key) v
unfolding detach
detach-in_turn env id w v link key h k =
    rw (h, k, detach_plan-ok env link key)
      (run0-in_turn (Unit {0}) (execute env) (detach_actions link key) v)
