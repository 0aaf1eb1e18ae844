-- ===== src/Tcx/Order.antt =====
-- A program that is attached at the computed order runs at its priority.
use mathlib.Core.List.{append_assoc}
use go_bpfman.Prelude.{
  ℕ, zero, suc, ◌<◌, ℤ, pos, negsuc, ltb_ℤ, true, false, ◌≡◌, refl, ap, inl, inr, List, [], ◌∷◌,
  ◌++◌, map, Option, some, All, Bool-cases, arith,
}
use go_bpfman.Manager.Order.Members.{Distinct}
use go_bpfman.Tcx.{
  TcxAttachOrder, TcxLinkInfo, tcx_attach_first, tcx_attach_before, tcx_attach_after, order_behind,
  compute_tcx_attach_order, Anchor, head, before_program, after_program, anchor_of,
}

abbrev pub ids_of : List TcxLinkInfo → List ℕ
ids_of links = map (λ l. l.kernel_program_id) links

-- By ascending priority, as the store lists the links.
abbrev pub Ascending : List TcxLinkInfo → Type 0
Ascending [] = Unit
Ascending (l ∷ links) = All (λ m. ltb_ℤ m.priority l.priority ≡ false) links × Ascending links

-- What the kernel makes of an anchor: the chain of the programs' ids with one more of them, or none
-- where it refuses.
abbrev pub Place : Type 0
Place = Anchor → ℕ → List ℕ → Option (List ℕ)

-- The anchors keep their word on a chain in which no program runs twice.
pub record IsPlacing (place : Place) : Type 0 where
  pub at_head : (id : ℕ) (chain : List ℕ) → place head id chain ≡ some (id ∷ chain)
  pub before :
      (a id : ℕ) (xs ys : List ℕ)
      → Distinct (xs ++ a ∷ ys)
      → place (before_program a) id (xs ++ a ∷ ys) ≡ some (xs ++ id ∷ a ∷ ys)
  pub after :
      (a id : ℕ) (xs ys : List ℕ)
      → Distinct (xs ++ a ∷ ys)
      → place (after_program a) id (xs ++ a ∷ ys) ≡ some (xs ++ a ∷ id ∷ ys)

ltb_below : (a b c : ℤ) → ltb_ℤ a b ≡ true → ltb_ℤ c b ≡ false → ltb_ℤ a c ≡ true
ltb_below (pos a) (pos b) (pos c) h k = ground arith
ltb_below (pos a) (pos b) (negsuc c) h k = ground arith
ltb_below (pos a) (negsuc b) c h k = ground arith
ltb_below (negsuc a) (pos b) (pos c) h k = ground arith
ltb_below (negsuc a) (pos b) (negsuc c) h k = ground arith
ltb_below (negsuc a) (negsuc b) (pos c) h k = ground arith
ltb_below (negsuc a) (negsuc b) (negsuc c) h k = ground arith

anchor_first : anchor_of tcx_attach_first ≡ head
unfolding anchor_of
anchor_first = refl

module _ (new_priority : ℤ) where
  -- What runs before and what runs after a program of the new priority.
  abbrev pub Earlier : List TcxLinkInfo → Type 0
  Earlier = All (λ l. ltb_ℤ new_priority l.priority ≡ false)

  abbrev pub Later : List TcxLinkInfo → Type 0
  Later = All (λ l. ltb_ℤ new_priority l.priority ≡ true)

  behind-Later :
      (l : TcxLinkInfo) (links : List TcxLinkInfo)
      → ltb_ℤ new_priority l.priority ≡ true
      → All (λ m. ltb_ℤ m.priority l.priority ≡ false) links
      → Later links
  behind-Later l [] h a = tt
  behind-Later l (m ∷ links) h (k, a) =
      (ltb_below new_priority l.priority m.priority h k, behind-Later l links h a)

  anchor_before : (a : ℕ) → 0 < a → anchor_of (tcx_attach_before a) ≡ before_program a
  unfolding anchor_of
  anchor_before zero h = absurd (omega arith)
  anchor_before (suc a) h = refl

  anchor_after : (a : ℕ) → 0 < a → anchor_of (tcx_attach_after a) ≡ after_program a
  unfolding anchor_of
  anchor_after zero h = absurd (omega arith)
  anchor_after (suc a) h = refl

  module _ (place : Place) (id : ℕ) where
    -- Behind the programs `xs`, the links are split where the new program runs.
    abbrev pub Placed : List ℕ → List TcxLinkInfo → TcxAttachOrder → Type 0
    Placed xs links order =
        (earlier : List TcxLinkInfo) × (later : List TcxLinkInfo) × (links ≡ earlier ++ later)
        × Earlier earlier
        × Later later
        × (place (anchor_of order) id (xs ++ ids_of links)
            ≡ some (xs ++ (ids_of earlier ++ id ∷ ids_of later)))

    order_behind-Placed :
        (rules : IsPlacing place) (xs : List ℕ) (last : TcxLinkInfo) (links : List TcxLinkInfo)
        → Ascending links
        → All (λ l. 0 < l.kernel_program_id) (last ∷ links)
        → Distinct (xs ++ last.kernel_program_id ∷ ids_of links)
        → Placed (xs ++ last.kernel_program_id ∷ []) links (order_behind last links new_priority)
    unfolding order_behind
    order_behind-Placed rules xs last [] asc (p, q) d =
        let a = last.kernel_program_id in
        (
          [],
          [],
          refl,
          tt,
          tt,
          rw (append_assoc xs (a ∷ []) [], append_assoc xs (a ∷ []) (id ∷ []), anchor_after a p)
              (rules.after a id xs [] d),
        )
    order_behind-Placed rules xs last (l ∷ links) asc (p, q) d =
        let a = last.kernel_program_id in
        let b = l.kernel_program_id in
        let ys = xs ++ a ∷ [] in
        let d' : Distinct (ys ++ b ∷ ids_of links) =
          rw (append_assoc xs (a ∷ []) (b ∷ ids_of links)) d in
        elim (Bool-cases (ltb_ℤ new_priority l.priority)) [
          | inl e ↦
              rw (e, anchor_before b q.0)
                (
                  [],
                  l ∷ links,
                  refl,
                  tt,
                  (e, behind-Later l links e asc.0),
                  rules.before b id ys (ids_of links) d',
                )
          | inr e ↦
              let (earlier, later, split, es, ls, eq) =
                order_behind-Placed rules ys l links asc.1 q d' in
              rw e (
                l ∷ earlier,
                later,
                ap (λ t. l ∷ t) split,
                (e, es),
                ls,
                rw
                    (
                      ← append_assoc ys (b ∷ []) (ids_of links),
                      ← append_assoc ys (b ∷ []) (ids_of earlier ++ id ∷ ids_of later),
                    )
                    eq,
              )
        ]

-- Where the links of an interface are listed by ascending priority, no program runs twice, and
-- kernel ids are positive, a program that is attached to the chain of these links at the order that
-- computeTCXAttachOrder returns, as the kernel adapter reads it, runs behind every program of a
-- priority up to its own and before every program of a higher one; the others keep their order.
pub compute_tcx_attach_order-Placed :
    (place : Place) (rules : IsPlacing place) (links : List TcxLinkInfo) (new_priority : ℤ) (id : ℕ)
    → Ascending links
    → All (λ l. 0 < l.kernel_program_id) links
    → Distinct (ids_of links)
    → Placed new_priority place id [] links (compute_tcx_attach_order links new_priority)
unfolding compute_tcx_attach_order
compute_tcx_attach_order-Placed place rules [] new_priority id asc q d =
    ([], [], refl, tt, tt, rw anchor_first (rules.at_head id []))
compute_tcx_attach_order-Placed place rules (l ∷ links) new_priority id asc (p, q) d =
    let b = l.kernel_program_id in
    elim (Bool-cases (ltb_ℤ new_priority l.priority)) [
      | inl e ↦
          rw (e, anchor_before new_priority b p)
            (
              [],
              l ∷ links,
              refl,
              tt,
              (e, behind-Later new_priority l links e asc.0),
              rules.before b id [] (ids_of links) d,
            )
      | inr e ↦
          let (earlier, later, split, es, ls, eq) =
            order_behind-Placed new_priority place id rules [] l links asc.1 (p, q) d in
          rw e (l ∷ earlier, later, ap (λ t. l ∷ t) split, (e, es), ls, eq)
    ]
