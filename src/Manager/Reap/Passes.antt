-- ===== src/Manager/Reap/Passes.antt =====
-- The passes of the planner: what they keep, and that each that makes progress removes a program.
use go_bpfman.Prelude.{
  ℕ, zero, suc, ◌<◌, ◌≡◌, refl, ◌∙◌, ap, ◌↔◌, ◌⊎◌, inl, inr, Bool, true, false, pos, ltb_ℤ, List,
  [], ◌∷◌, ◌++◌, map, some, In, In-append_left, In-append_right, Bool-cases, arith,
}
use go_bpfman.Manager.World.{ProgramRecord}
use go_bpfman.Manager.Order.{contains}
use go_bpfman.Manager.Order.Members.{
  contains-iff-In, Distinct, unseen, unseen-lt, Precedes, Precedes-append, Precedes-last,
  Distinct-snoc, In-append_inv,
}
use go_bpfman.Manager.Reap.{
  Programs, keys, ReapAction, ReapState, owner_of, is_blocked, reap_one, reap_pass, reap_passes,
}
use go_bpfman.Manager.Reap.Counts.{
  waiting, waiting_removed, waiting_none, none_counted, decrement-pos,
}

abbrev pub plan_ids : List ReapAction → List ℕ
plan_ids plan = map (λ a. a.program_id) plan

plan_ids-snoc :
    (plan : List ReapAction) (a : ReapAction)
    → plan_ids (plan ++ a ∷ []) ≡ plan_ids plan ++ a.program_id ∷ []
plan_ids-snoc [] a = refl
plan_ids-snoc (b ∷ plan) a = ap (λ l. b.program_id ∷ l) (plan_ids-snoc plan a)

module _ (programs : Programs) where
  pass_blocked :
      (id : ℕ) (todo : List ℕ) (s : ReapState) (progress : Bool)
      → is_blocked s id ≡ true
      → reap_pass programs (id ∷ todo) s progress ≡ reap_pass programs todo s progress
  unfolding reap_pass
  pass_blocked id todo s progress h = ground arith

  pass_free :
      (id : ℕ) (todo : List ℕ) (s : ReapState) (progress : Bool)
      → is_blocked s id ≡ false
      → reap_pass programs (id ∷ todo) s progress
        ≡ reap_pass programs todo (reap_one programs id s) true
  unfolding reap_pass
  pass_free id todo s progress h = ground arith

  passes_done :
      (fuel : ℕ) (ids : List ℕ) (s : ReapState)
      → reap_pass programs ids s false ≡ (s, false)
      → reap_passes programs (suc fuel) ids s ≡ some s
  unfolding reap_passes
  passes_done fuel ids s h = ground arith

  passes_more :
      (fuel : ℕ) (ids : List ℕ) (s : ReapState)
      → (reap_pass programs ids s false).1 ≡ true
      → reap_passes programs (suc fuel) ids s
        ≡ reap_passes programs fuel ids (reap_pass programs ids s false).0
  unfolding reap_passes
  passes_more fuel ids s h = ground arith

module _ (programs : Programs) (ids : List ℕ) where
  pub record IsReaping (s : ReapState) : Type 0 where
    pub counts : (a : ℕ) → s.deps a ≡ pos (waiting s.removed programs a)
    pub planned : (a : ℕ) → In a s.removed ↔ In a (plan_ids s.plan)
    pub chosen : (a : ℕ) → In a s.removed → In a ids
    pub distinct : Distinct (plan_ids s.plan)
    pub first :
        (a k : ℕ) (p : ProgramRecord)
        → In a (plan_ids s.plan)
        → In (k, p) programs
        → p.map_owner_id ≡ some a
        → Precedes k a (plan_ids s.plan)

  module _ (keyed : Distinct (keys programs))
      (stored : (a : ℕ) → In a ids → In a (keys programs)) where
    free_fresh : (s : ReapState) (id : ℕ) → is_blocked s id ≡ false → contains s.removed id ≡ false
    unfolding is_blocked
    free_fresh s id h = ground arith

    free_ready :
        (s : ReapState) (id : ℕ) → is_blocked s id ≡ false → ltb_ℤ (pos 0) (s.deps id) ≡ false
    unfolding is_blocked
    free_ready s id h = ground arith

    reap_one-IsReaping :
        (s : ReapState) (id : ℕ)
        → In id ids
        → is_blocked s id ≡ false
        → IsReaping s
        → IsReaping (reap_one programs id s)
    unfolding reap_one is_blocked
    reap_one-IsReaping s id i h r = record {
      counts = λ a.
          decrement-pos (owner_of programs id) s.deps a _ (
            r.counts a ∙ ap pos (waiting_removed s.removed id programs a keyed (stored id i) held));
      planned = λ a. rw (plan_ids-snoc s.plan _) (
        λ j. elim j [
          | inl e ↦ In-append_right a (plan_ids s.plan) (id ∷ []) (inl e)
          | inr k ↦ In-append_left a (plan_ids s.plan) (id ∷ []) ((r.planned a).0 k)
        ],
        λ j. elim (In-append_inv a (plan_ids s.plan) (id ∷ []) j) [
          | inl k ↦ inr ((r.planned a).1 k)
          | inr k ↦ elim k [ inl e ↦ inl e | inr x ↦ absurd x ]
        ],
      );
      chosen = λ a j. elim j [ inl e ↦ rw e i | inr k ↦ r.chosen a k ];
      distinct = rw (plan_ids-snoc s.plan _) (Distinct-snoc id (plan_ids s.plan) r.distinct fresh);
      first = λ a k p j m o.
          rw (plan_ids-snoc s.plan _)
            (elim (In-append_inv a (plan_ids s.plan) (id ∷ []) (rw (plan_ids-snoc s.plan _) at j)) [
              | inl l ↦ Precedes-append k a (plan_ids s.plan) (id ∷ []) (r.first a k p l m o)
              | inr l ↦ elim l [
                | inl e ↦ rw e (
                    Precedes-last k id (plan_ids s.plan) (
                      (r.planned k).0 (waiting_none s.removed programs id k p idle m (rw (← e) o))))
                | inr x ↦ absurd x
              ]
            ]);
    }
      where
        held : contains s.removed id ≡ false
        held = free_fresh s id h

        idle : waiting s.removed programs id ≡ 0
        idle =
            none_counted (s.deps id) (waiting s.removed programs id) (r.counts id)
              (free_ready s id h)

        fresh : ¬ (In id (plan_ids s.plan))
        fresh j = ground (arith, (contains-iff-In s.removed id).1 ((r.planned id).1 j))

    -- The pass is over and did nothing, or it made progress.
    reap_pass-cases :
        (todo : List ℕ) (s : ReapState) (progress : Bool)
        → ((a : ℕ) → In a todo → In a ids)
        → ((reap_pass programs todo s progress ≡ (s, progress))
            × ((a : ℕ) → In a todo → is_blocked s a ≡ true))
          ⊎ (((reap_pass programs todo s progress).1 ≡ true)
              × (unseen (reap_pass programs todo s progress).0.removed ids < unseen s.removed ids))
    unfolding reap_pass
    reap_pass-cases [] s progress f = inl (refl, λ a i. absurd i)
    reap_pass-cases (id ∷ todo) s progress f = elim (Bool-cases (is_blocked s id)) [
      | inl e ↦
          rw (pass_blocked programs id todo s progress e)
            (elim (reap_pass-cases todo s progress (λ a i. f a (inr i))) [
              | inl (q, b) ↦ inl (q, λ a i. elim i [ inl j ↦ rw j e | inr j ↦ b a j ])
              | inr c ↦ inr c
            ])
      | inr e ↦ rw (pass_free programs id todo s progress e) (
          let less = unseen-lt s.removed ids id (f id (inl refl)) (free_fresh s id e) in
          elim (reap_pass-cases todo (reap_one programs id s) true (λ a i. f a (inr i))) [
            | inl (q, b) ↦ inr (rw q (refl, less))
            | inr (q, l) ↦ inr (q, omega arith)
          ])
    ]

    reap_pass-IsReaping :
        (todo : List ℕ) (s : ReapState) (progress : Bool)
        → ((a : ℕ) → In a todo → In a ids)
        → IsReaping s
        → IsReaping (reap_pass programs todo s progress).0
    unfolding reap_pass
    reap_pass-IsReaping [] s progress f r = r
    reap_pass-IsReaping (id ∷ todo) s progress f r = elim (Bool-cases (is_blocked s id)) [
      | inl e ↦
          rw (pass_blocked programs id todo s progress e)
            (reap_pass-IsReaping todo s progress (λ a i. f a (inr i)) r)
      | inr e ↦ rw (pass_free programs id todo s progress e) (
          reap_pass-IsReaping todo (reap_one programs id s) true (λ a i. f a (inr i))
            (reap_one-IsReaping s id (f id (inl refl)) e r))
    ]

    -- With fuel above the programs that are left, the passes end where every one is blocked.
    pub reap_passes-IsReaping :
        (fuel : ℕ) (s : ReapState)
        → unseen s.removed ids < fuel
        → IsReaping s
        → (t : ReapState) × (reap_passes programs fuel ids s ≡ some t)
          × IsReaping t
          × ((a : ℕ) → In a ids → is_blocked t a ≡ true)
    unfolding reap_passes
    reap_passes-IsReaping zero s m r = absurd (omega arith)
    reap_passes-IsReaping (suc fuel) s m r = elim (reap_pass-cases ids s false (λ a i. i)) [
      | inl (e, b) ↦ (s, passes_done programs fuel ids s e, r, b)
      | inr (e, l) ↦ rw (passes_more programs fuel ids s e) (
          reap_passes-IsReaping fuel (reap_pass programs ids s false).0 (omega arith)
            (reap_pass-IsReaping ids s false (λ a i. i) r))
    ]
