-- ===== src/Manager/Order.antt =====
-- The order in which a batch of programs is deleted (manager/delete.go, orderProgramDeletes), and
-- the map from owners to dependents that it reads.
pub mod Members
mod Walks
mod Visit
pub mod Correct
use go_bpfman.Prelude.{
  ℕ, zero, suc, Bool, true, false, ◌||◌, List, [], ◌∷◌, ◌++◌, Option, none, some, ◌==◌, leb,
  if◌then◌else◌, length,
}
use go_bpfman.Prelude.Options.{◌>>=◌}

-- map[kernel.ProgramID][]kernel.ProgramID, each key once.
abbrev pub Dependents : Type 0
Dependents = List (ℕ × List ℕ)

-- dependentsByOwner[id], which is empty for a key that is not there.
unfoldable pub dependents_of : Dependents → ℕ → List ℕ
dependents_of [] id = []
dependents_of ((owner, ids) ∷ rest) id = if owner == id then ids else dependents_of rest id

-- dependentsByOwner[ownerID] = append(dependentsByOwner[ownerID], id)
unfoldable pub add_dependent : ℕ → ℕ → Dependents → Dependents
add_dependent owner id [] = (owner, id ∷ []) ∷ []
add_dependent owner id ((o, ids) ∷ rest) =
    if o == owner then (o, ids ++ id ∷ []) ∷ rest else (o, ids) ∷ add_dependent owner id rest

-- A map[kernel.ProgramID]bool, as the list of its keys.
unfoldable pub contains : List ℕ → ℕ → Bool
contains [] a = false
contains (x ∷ xs) a = a == x || contains xs a

-- seen and ordered
pub record Walk : Type 0 where
  pub seen : List ℕ
  pub ordered : List ℕ

module _ (selected : List ℕ) (dependents : Dependents) where
  -- The loop over the dependents, where `visit` is called for each one that is selected.
  pub visit_selected : (ℕ → Walk → Option Walk) → List ℕ → Walk → Option Walk
  unfolding contains
  visit_selected visit [] w = some w
  visit_selected visit (d ∷ ds) w =
      (if contains selected d then visit d w else some w) >>= visit_selected visit ds

  pub finish : ℕ → Option Walk → Option Walk
  finish id none = none
  finish id (some w) = some (record w { ordered = w.ordered ++ id ∷ [] })

  -- visit; `none` means that the fuel, which bounds the depth of the calls, ran out.
  pub visit : ℕ → ℕ → Walk → Option Walk
  unfolding contains visit_selected finish dependents_of
  visit zero id w = none
  visit (suc fuel) id w =
      let rest =
        visit_selected (visit fuel) (dependents_of dependents id)
          (record w { seen = id ∷ w.seen }) in
      if contains w.seen id then some w else finish id rest

  -- The last loop.
  pub visit_all : ℕ → List ℕ → Walk → Option Walk
  unfolding visit
  visit_all fuel [] w = some w
  visit_all fuel (id ∷ ids) w = visit fuel id w >>= visit_all fuel ids

pub ordered_of : Option Walk → Option (List ℕ)
ordered_of none = none
ordered_of (some w) = some w.ordered

pub is_empty : Dependents → Bool
is_empty [] = true
is_empty (_ ∷ _) = false

-- orderProgramDeletes; no path of calls is longer than the list of ids.
unfoldable pub order_program_deletes : List ℕ → Dependents → Option (List ℕ)
unfolding visit_all ordered_of is_empty
order_program_deletes ids dependents =
    if leb (length ids) 1 || is_empty dependents
    then some ids
    else ordered_of
        (visit_all ids dependents (suc (length ids)) ids (record { seen = []; ordered = [] }))
