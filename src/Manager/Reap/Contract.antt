-- ===== src/Manager/Reap/Contract.antt =====
-- What the planner promises, and that it keeps it on every snapshot.
use go_bpfman.Prelude.{
  ℕ, suc, ◌≡◌, refl, ap, ◌∙◌, ◌↔◌, ◌⊎◌, inl, inr, true, pos, ltb_ℤ, leb, List, [], ◌∷◌, some,
  length, In, Bool-cases, arith,
}
use go_bpfman.Manager.World.{ProgramRecord}
use go_bpfman.Manager.Order.{contains}
use go_bpfman.Manager.Order.Members.{contains-iff-In, Distinct, unseen-le-length, Precedes}
use go_bpfman.Manager.Reap.{
  Programs, keys, ReapSnapshot, ReapAction, ReapState, is_blocked, count_dependents, dead_ids,
  insert_sorted, sort_ids, plan_of, plan_reap,
}
use go_bpfman.Manager.Reap.Counts.{count_dependents-waiting, waiting_some, some_counted}
use go_bpfman.Manager.Reap.Passes.{plan_ids, reap_passes-IsReaping}

-- A record whose program is not in the kernel.
abbrev pub IsDead : ReapSnapshot → ℕ → Type 0
IsDead snap a = In a (keys snap.store_programs) × ¬ (In a snap.live_kernel_program)

-- `k` is the record of a program that names `a` as the owner of its maps.
pub record IsDependent (snap : ReapSnapshot) (a k : ℕ) : Type 0 where
  pub program : ProgramRecord
  pub stored : In (k, program) snap.store_programs
  pub owner : program.map_owner_id ≡ some a

pub record IsReapPlan (snap : ReapSnapshot) (ids : List ℕ) : Type 0 where
  pub distinct : Distinct ids
  pub dead : (a : ℕ) → In a ids → IsDead snap a
  pub dependents_first : (a k : ℕ) → In a ids → IsDependent snap a k → Precedes k a ids
  pub complete :
      (a : ℕ) → IsDead snap a → In a ids ⊎ ((k : ℕ) × IsDependent snap a k × ¬ (In k ids))

insert_sorted-iff_In : (b : ℕ) (xs : List ℕ) (a : ℕ) → In a (insert_sorted b xs) ↔ In a (b ∷ xs)
unfolding insert_sorted
insert_sorted-iff_In b [] a = (λ i. i, λ i. i)
insert_sorted-iff_In b (x ∷ xs) a = elim (Bool-cases (leb b x)) [
  | inl e ↦ rw e (λ i. i, λ i. i)
  | inr e ↦ rw e (ground (arith, insert_sorted-iff_In b xs a))
]

sort_ids-iff_In : (xs : List ℕ) (a : ℕ) → In a (sort_ids xs) ↔ In a xs
unfolding sort_ids
sort_ids-iff_In [] a = (λ i. i, λ i. i)
sort_ids-iff_In (x ∷ xs) a =
    ground (arith, insert_sorted-iff_In x (sort_ids xs) a, sort_ids-iff_In xs a)

dead_ids-iff_In :
    (live : List ℕ) (programs : Programs) (a : ℕ)
    → In a (dead_ids live programs) ↔ (In a (keys programs) × ¬ (In a live))
unfolding dead_ids
dead_ids-iff_In live [] a = (λ i. absurd i, λ (i, _). absurd i)
dead_ids-iff_In live ((id, p) ∷ programs) a = elim (Bool-cases (contains live id)) [
  | inl e ↦ rw e (
    λ i. let (j, n) = (dead_ids-iff_In live programs a).0 i in (inr j, n),
    λ (j, n). elim j [
      | inl q ↦ absurd (n (rw q ((contains-iff-In live id).0 e)))
      | inr k ↦ (dead_ids-iff_In live programs a).1 (k, n)
    ],
  )
  | inr e ↦ rw e (
    λ i. elim i [
      | inl q ↦ (inl q, λ l. ground (arith, (contains-iff-In live id).1 (rw (← q) l)))
      | inr k ↦ let (j, n) = (dead_ids-iff_In live programs a).0 k in (inr j, n)
    ],
    λ (j, n). elim j [ inl q ↦ inl q | inr k ↦ inr ((dead_ids-iff_In live programs a).1 (k, n)) ],
  )
]

blocked_inv :
    (s : ReapState) (a : ℕ)
    → is_blocked s a ≡ true
    → (contains s.removed a ≡ true) ⊎ (ltb_ℤ (pos 0) (s.deps a) ≡ true)
unfolding is_blocked
blocked_inv s a h = elim (Bool-cases (contains s.removed a)) [
  | inl e ↦ inl e
  | inr e ↦ inr (rw e at h)
]

-- Where a snapshot lists each program once, planReap returns. It plans the removal of dead records
-- only, each once, and of an owner of maps only behind all programs whose records name it. Each dead
-- record that it leaves is named by a record that it leaves, too.
pub plan_reap-IsReapPlan :
    (snap : ReapSnapshot)
    → Distinct (keys snap.store_programs)
    → (plan : List ReapAction) × (plan_reap snap ≡ some plan) × IsReapPlan snap (plan_ids plan)
unfolding plan_reap plan_of
plan_reap-IsReapPlan snap keyed =
    let programs = snap.store_programs in
    let ids = sort_ids (dead_ids snap.live_kernel_program programs) in
    let dead : (a : ℕ) → In a ids ↔ IsDead snap a = λ a.
      let sorted = sort_ids-iff_In (dead_ids snap.live_kernel_program programs) a in
      let found = dead_ids-iff_In snap.live_kernel_program programs a in
      (λ i. found.0 (sorted.0 i), λ d. sorted.1 (found.1 d)) in
    let most = unseen-le-length [] ids in
    let (t, e, r, stuck) =
      reap_passes-IsReaping programs ids keyed (λ a i. ((dead a).0 i).0) (suc (length ids))
        (record { plan = []; removed = []; deps = count_dependents programs (λ _. pos 0) })
        (omega arith)
        (record {
          counts =
              λ a. count_dependents-waiting programs (λ _. pos 0) a 0 refl ∙ ap pos (omega arith);
          planned = λ a. (λ i. i, λ i. i);
          chosen = λ a i. absurd i;
          distinct = tt;
          first = λ a k p i. absurd i;
        }) in
    (
      t.plan,
      rw e refl,
      record {
        distinct = r.distinct;
        dead = λ a i. (dead a).0 (r.chosen a ((r.planned a).1 i));
        dependents_first = λ a k i d. r.first a k d.program i d.stored d.owner;
        complete = λ a d. elim (blocked_inv t a (stuck a ((dead a).1 d))) [
          | inl c ↦ inl ((r.planned a).0 ((contains-iff-In t.removed a).0 c))
          | inr c ↦
              let (k, p, i, o, out) =
                waiting_some t.removed programs a (some_counted _ _ (r.counts a) c) in
              inr (k, record { program = p; stored = i; owner = o }, λ j. out ((r.planned k).1 j))
        ];
      },
    )
