-- ===== src/Manager/Delete/Fuel.antt =====
-- Where dependents form no cycle, the recursion over them ends, and more fuel changes nothing.
use go_bpfman.Prelude.{ℕ, zero, suc, ◌<◌, Bool, true, ◌≡◌, refl, List, [], ◌∷◌, In, inl, inr, arith}
use go_bpfman.Exec.{Exec}
use go_bpfman.Manager.World.{ManagerEnv}
use go_bpfman.Manager.Order.{Dependents, dependents_of}
use go_bpfman.Manager.Delete.{Batch, delete_dependents, delete_program}

module _ (env : ManagerEnv) where
  delete_dependents-eq :
      (f g : ℕ → Exec Batch (Unit {0})) (ds : List ℕ)
      → ((d : ℕ) → In d ds → f d ≡ g d)
      → delete_dependents env f ds ≡ delete_dependents env g ds
  unfolding delete_dependents
  delete_dependents-eq f g [] same = refl
  delete_dependents-eq f g (d ∷ ds) same =
      rw (same d (inl refl), delete_dependents-eq f g ds (λ a i. same a (inr i))) refl

-- Where each dependent ranks below its owner, every fuel above a program's rank gives the same
-- deletion of the program: the recursion over dependents has ended before the fuel runs out.
pub delete_program_fuel :
    (env : ManagerEnv) (dependents : Dependents) (rank : ℕ → ℕ)
    → ((a d : ℕ) → In d (dependents_of dependents a) → rank d < rank a)
    → (fuel more id : ℕ) (recursive : Bool) → rank id < fuel
    → rank id < more
    → delete_program env fuel dependents id recursive
      ≡ delete_program env more dependents id recursive
unfolding delete_program
delete_program_fuel env dependents rank acyclic zero more id recursive h k = absurd (omega arith)
delete_program_fuel env dependents rank acyclic (suc fuel) zero id recursive h k =
    absurd (omega arith)
delete_program_fuel env dependents rank acyclic (suc fuel) (suc more) id recursive h k =
    rw
      (delete_dependents-eq env (λ d. delete_program env fuel dependents d true)
        (λ d. delete_program env more dependents d true) (dependents_of dependents id)
        λ d i.
          let below = acyclic id d i in
          delete_program_fuel env dependents rank acyclic fuel more d true (omega arith)
            (omega arith))
      refl
