-- ===== src/Manager/Reap/Counts.antt =====
-- The counts of dependents: how many programs that are not yet removed name a given owner.
use go_bpfman.Prelude.{
  ℕ, suc, ◌+◌, ◌<◌, ◌≡◌, refl, ◌∙◌, ap, inl, inr, Bool, true, false, ◌&&◌, not, ℤ, pos, ltb_ℤ, List,
  [], ◌∷◌, Option, none, some, ◌==◌, if◌then◌else◌, In, Bool-cases, ==_iff, arith,
}
use go_bpfman.Manager.World.{ProgramRecord}
use go_bpfman.Manager.Order.{contains}
use go_bpfman.Manager.Order.Members.{contains-iff-In, Distinct}
use go_bpfman.Manager.Reap.{
  Programs, keys, Counts, increment, decrement, succ_ℤ, pred_ℤ, count_dependents, owner_of,
}

-- A program names that owner.
abbrev pub names : Option ℕ → ℕ → Bool
names none a = false
names (some owner) a = owner == a

-- How many programs outside `removed` name `a` as their owner.
pub waiting : List ℕ → Programs → ℕ → ℕ
unfolding contains
waiting removed [] a = 0
waiting removed ((k, p) ∷ programs) a =
    let rest = waiting removed programs a in
    if names p.map_owner_id a && not (contains removed k) then suc rest else rest

increment-pos :
    (o : Option ℕ) (deps : Counts) (a n : ℕ)
    → deps a ≡ pos n
    → increment o deps a ≡ pos (if names o a then suc n else n)
unfolding increment succ_ℤ
increment-pos none deps a n h = h
increment-pos (some owner) deps a n h = elim (Bool-cases (owner == a)) [
  | inl e ↦ rw (e, h) refl
  | inr e ↦ rw (e, h) refl
]

pub decrement-pos :
    (o : Option ℕ) (deps : Counts) (a n : ℕ)
    → deps a ≡ pos (if names o a then suc n else n)
    → decrement o deps a ≡ pos n
unfolding decrement pred_ℤ
decrement-pos none deps a n h = h
decrement-pos (some owner) deps a n h = elim (Bool-cases (owner == a)) [
  | inl e ↦ rw (e, rw e at h) refl
  | inr e ↦ rw (e, rw e at h) refl
]

pub count_dependents-waiting :
    (programs : Programs) (deps : Counts) (a n : ℕ)
    → deps a ≡ pos n
    → count_dependents programs deps a ≡ pos (n + waiting [] programs a)
unfolding count_dependents waiting contains
count_dependents-waiting [] deps a n h = h ∙ ap pos (omega arith)
count_dependents-waiting ((k, p) ∷ programs) deps a n h =
    count_dependents-waiting programs (increment p.map_owner_id deps) a _
      (increment-pos p.map_owner_id deps a n h)
    ∙ ap pos (ground arith)

-- An id that no program has changes nothing.
waiting_other :
    (removed : List ℕ) (id : ℕ) (programs : Programs) (a : ℕ)
    → ¬ (In id (keys programs))
    → waiting (id ∷ removed) programs a ≡ waiting removed programs a
unfolding waiting contains
waiting_other removed id [] a h = refl
waiting_other removed id ((k, p) ∷ programs) a h =
    ground (arith, waiting_other removed id programs a (λ i. h (inr i)), λ (e : id ≡ k). h (inl e))

suc_twice :
    (b c : Bool) (n : ℕ)
    → (if b then suc (if c then suc n else n) else (if c then suc n else n))
      ≡ (if c then suc (if b then suc n else n) else (if b then suc n else n))
suc_twice true true n = refl
suc_twice true false n = refl
suc_twice false true n = refl
suc_twice false false n = refl

names_self : (o : Option ℕ) (a : ℕ) → o ≡ some a → names o a ≡ true
names_self o a e = rw e (ground arith)

names_inv : (o : Option ℕ) (a : ℕ) → names o a ≡ true → o ≡ some a
names_inv none a h = ground arith
names_inv (some b) a h = ap some ((==_iff b a).0 h)

-- A program that is removed waits no more, and no other program is.
pub waiting_removed :
    (removed : List ℕ) (id : ℕ) (programs : Programs) (a : ℕ)
    → Distinct (keys programs)
    → In id (keys programs)
    → contains removed id ≡ false
    → waiting removed programs a ≡ (
        if names (owner_of programs id) a
        then suc (waiting (id ∷ removed) programs a)
        else waiting (id ∷ removed) programs a)
unfolding waiting contains owner_of
waiting_removed removed id [] a d i h = absurd i
waiting_removed removed id ((k, p) ∷ programs) a (n, d) (inl e) h =
    let held : contains removed k ≡ false = rw (← e) h in
    let rest = waiting_other removed id programs a (λ j. n (rw (← e) j)) in
    let same : (k == id) ≡ true = ground (arith, e) in
    rw (same, held, rest) (ground (arith, names p.map_owner_id a))
waiting_removed removed id ((k, p) ∷ programs) a (n, d) (inr i) h =
    let other : (k == id) ≡ false = ground (arith, λ (e : k ≡ id). n (rw e i)) in
    rw (other, waiting_removed removed id programs a d i h)
      (suc_twice (names p.map_owner_id a && not (contains removed k))
        (names (owner_of programs id) a) _)

-- Where none waits, every program that names the owner is removed.
pub waiting_none :
    (removed : List ℕ) (programs : Programs) (a : ℕ) (k : ℕ) (p : ProgramRecord)
    → waiting removed programs a ≡ 0
    → In (k, p) programs
    → p.map_owner_id ≡ some a
    → In k removed
unfolding waiting
waiting_none removed [] a k p h i o = absurd i
waiting_none removed ((k', p') ∷ programs) a k p h (inl e) o = (contains-iff-In removed k).0 (
    rw (ap (λ x. x.0) e)
      (ground (arith, names_self p'.map_owner_id a (rw (← ap (λ x. x.1.map_owner_id) e) o))))
waiting_none removed ((k', p') ∷ programs) a k p h (inr i) o =
    waiting_none removed programs a k p (ground arith) i o

-- Where one waits, there is such a program.
pub waiting_some :
    (removed : List ℕ) (programs : Programs) (a : ℕ)
    → 0 < waiting removed programs a
    → (k : ℕ) × (p : ProgramRecord) × In (k, p) programs
      × (p.map_owner_id ≡ some a)
      × ¬ (In k removed)
unfolding waiting
waiting_some removed [] a h = absurd (omega arith)
waiting_some removed ((k, p) ∷ programs) a h =
    elim (Bool-cases (names p.map_owner_id a && not (contains removed k))) [
      | inl e ↦ (
        k,
        p,
        inl refl,
        names_inv p.map_owner_id a (ground arith),
        λ i. ground (arith, (contains-iff-In removed k).1 i),
      )
      | inr e ↦
          let (k', p', i, o, out) = waiting_some removed programs a (rw e at h) in
          (k', p', inr i, o, out)
    ]

pub none_counted : (z : ℤ) (n : ℕ) → z ≡ pos n → ltb_ℤ (pos 0) z ≡ false → n ≡ 0
none_counted z n e h = ground (arith, rw e at h)

pub some_counted : (z : ℤ) (n : ℕ) → z ≡ pos n → ltb_ℤ (pos 0) z ≡ true → 0 < n
some_counted z n e h = ground (arith, rw e at h)
