-- ===== src/Tcx.antt =====
-- The order of the TCX programs of an interface: the types of link.go, the choice of the place in
-- manager/attach_tc.go, and what the kernel adapter makes of it (platform/ebpf/attach_tc.go).
pub mod Order
use go_bpfman.Prelude.{
  ℕ, zero, suc, ◌%◌, ◌-◌, ltb, ℤ, pos, negsuc, ltb_ℤ, Bool, true, false, List, [], ◌∷◌, ◌++◌, map,
  Option, none, some, ◌==◌, if◌then◌else◌,
}
use go_bpfman.Exec.{Exec, pure, ◌>>=◌}

-- TCXAttachOrder
pub record TcxAttachOrder : Type 0 where
  pub first : Bool
  pub before_prog_id : ℕ
  pub after_prog_id : ℕ

-- TCXAttachFirst
abbrev pub tcx_attach_first : TcxAttachOrder
tcx_attach_first = record { first = true; before_prog_id = 0; after_prog_id = 0 }

-- TCXAttachBefore
abbrev pub tcx_attach_before : ℕ → TcxAttachOrder
tcx_attach_before id = record { first = false; before_prog_id = id; after_prog_id = 0 }

-- TCXAttachAfter
abbrev pub tcx_attach_after : ℕ → TcxAttachOrder
tcx_attach_after id = record { first = false; before_prog_id = 0; after_prog_id = id }

-- TCXLinkInfo
pub record TcxLinkInfo : Type 0 where
  pub link_id : ℕ
  pub kernel_link_id : ℕ
  pub kernel_program_id : ℕ
  pub priority : ℤ  -- int32

-- The scan of the links, behind `last`.
unfoldable pub order_behind : TcxLinkInfo → List TcxLinkInfo → ℤ → TcxAttachOrder
order_behind last [] new_priority = tcx_attach_after last.kernel_program_id
order_behind last (link ∷ links) new_priority =
    let rest = order_behind link links new_priority in
    if ltb_ℤ new_priority link.priority then tcx_attach_before link.kernel_program_id else rest

-- computeTCXAttachOrder
unfoldable pub compute_tcx_attach_order : List TcxLinkInfo → ℤ → TcxAttachOrder
unfolding order_behind
compute_tcx_attach_order [] new_priority = tcx_attach_first
compute_tcx_attach_order (link ∷ links) new_priority =
    if ltb_ℤ new_priority link.priority
    then tcx_attach_before link.kernel_program_id
    else order_behind link links new_priority

-- link.Anchor, with the anchors that the adapter uses
pub data Anchor : Type 0 where
  head : Anchor
  before_program : ℕ → Anchor
  after_program : ℕ → Anchor

-- The switch of AttachTCX in the kernel adapter.
unfoldable pub anchor_of : TcxAttachOrder → Anchor
anchor_of order = if order.first then head else elim order.before_prog_id [
  | suc n ↦ before_program (suc n)
  | zero ↦ elim order.after_prog_id [ suc n ↦ after_program (suc n) | zero ↦ head ]
]

-- checked[id], as far as the ids were looked up
unfoldable pub checked_at : ℕ → List (ℕ × Bool) → Option Bool
checked_at id [] = none
checked_at id ((k, b) ∷ checked) =
    let rest = checked_at id checked in if k == id then some b else rest

module _ {W : Type 0} (is_live : ℕ → Exec W Bool) where
  -- The loop of filterLiveTCXLinks.
  unfoldable pub filter_live : List TcxLinkInfo → List (ℕ × Bool) → Exec W (List TcxLinkInfo)
  unfolding checked_at
  filter_live [] checked = pure []
  filter_live (l ∷ links) checked = elim (checked_at l.kernel_program_id checked) [
    | some true ↦ filter_live links checked >>= λ live. pure (l ∷ live)
    | some false ↦ filter_live links checked
    | none ↦ is_live l.kernel_program_id >>= λ b.
        filter_live links ((l.kernel_program_id, b) ∷ checked) >>= λ live.
        pure (if b then l ∷ live else live)
  ]

  -- filterLiveTCXLinks
  unfoldable pub filter_live_tcx_links : List TcxLinkInfo → Exec W (List TcxLinkInfo)
  unfolding filter_live
  filter_live_tcx_links links = filter_live links []
