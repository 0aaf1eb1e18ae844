-- ===== src/Operation/Binding.antt =====
-- The bindings: what `Build` rules out, and that a bound value stays what its node returned.
use mathlib.Core.Path.{subst}
use text.Mathlib.Text.{◌==◌}
use text.Mathlib.TextEquality.{eq_iff}
use text.Mathlib.TextPositions.{eq_refl}
use go_bpfman.Prelude.{
  ◌≡◌, refl, sym, ◌∙◌, ◌↔◌, String, List, [], ◌∷◌, ◌++◌, Option, none, some, inl, inr, arith, In,
  Bool-cases, true,
}
use go_bpfman.Errors.{Err}
use go_bpfman.Exec.{Outcome, ok, Exec, Outcome-cases}
use go_bpfman.Operation.{
  Bindings, lookup, Node, produce, do_node, try_node, Progress, step, interpret, contains,
  build_from, build, start, run,
}

module _ {W Act Val : Type 0} where
  -- The keys that the Produce nodes of a plan bind, in order.
  abbrev pub keys : List (Node W Act Val) → List String
  keys [] = []
  keys (produce key _ _ _ ∷ ns) = key ∷ keys ns
  keys (do_node _ _ _ _ ∷ ns) = keys ns
  keys (try_node _ _ _ ∷ ns) = keys ns

abbrev pub Distinct : List String → Type 0
Distinct [] = Unit
Distinct (k ∷ ks) = ¬ (In k ks) × Distinct ks

-- No key of the first list is in the second.
abbrev Apart : List String → List String → Type 0
Apart [] seen = Unit
Apart (k ∷ ks) seen = ¬ (In k seen) × Apart ks seen

contains-In : (k : String) (seen : List String) → contains k seen ≡ true → In k seen
unfolding contains
contains-In k [] h = absurd (ground arith)
contains-In k (j ∷ seen) h = ground (arith, eq_iff j k, contains-In k seen)

In-contains : (k : String) (seen : List String) → In k seen → contains k seen ≡ true
unfolding contains
In-contains k [] h = absurd h
In-contains k (j ∷ seen) (inl e) = ground (arith, eq_iff j k)
In-contains k (j ∷ seen) (inr h) = ground (arith, In-contains k seen h)

Apart-cons :
    (k : String) (ks seen : List String) → Apart ks (k ∷ seen) → ¬ (In k ks) × Apart ks seen
Apart-cons k [] seen h = (λ m. m, tt)
Apart-cons k (j ∷ ks) seen h =
    let (fresh, rest) = Apart-cons k ks seen h.1 in
    (elim [ inl e ↦ h.0 (inl (sym e)) | inr m ↦ fresh m ], (λ m. h.0 (inr m), rest))

Apart-of_cons :
    (k : String) (ks seen : List String) → ¬ (In k ks) → Apart ks seen → Apart ks (k ∷ seen)
Apart-of_cons k [] seen f h = tt
Apart-of_cons k (j ∷ ks) seen f h =
    (elim [ inl e ↦ f (inl (sym e)) | inr m ↦ h.0 m ], Apart-of_cons k ks seen (λ m. f (inr m)) h.1)

Apart-nil : (ks : List String) → Apart ks []
Apart-nil [] = tt
Apart-nil (k ∷ ks) = (λ m. m, Apart-nil ks)

module _ {W Act Val : Type 0} where
  build_from-Distinct :
      (seen : List String) (ns : List (Node W Act Val))
      → build_from seen ns ≡ ok tt
      → Distinct (keys ns) × Apart (keys ns) seen
  unfolding build_from
  build_from-Distinct seen [] h = (tt, tt)
  build_from-Distinct seen (produce k t fn u ∷ ns) h = elim (Bool-cases (contains k seen)) [
    | inl e ↦ absurd (ground (arith, e))
    | inr e ↦
        let (distinct, apart) = build_from-Distinct (k ∷ seen) ns (ground (arith, e)) in
        let (fresh, rest) = Apart-cons k (keys ns) seen apart in
        ((fresh, distinct), (λ m. ground (arith, e, In-contains k seen m), rest))
  ]
  build_from-Distinct seen (do_node l t fn u ∷ ns) h = build_from-Distinct seen ns h
  build_from-Distinct seen (try_node l t fn ∷ ns) h = build_from-Distinct seen ns h

  Distinct-build_from :
      (seen : List String) (ns : List (Node W Act Val))
      → Distinct (keys ns)
      → Apart (keys ns) seen
      → build_from seen ns ≡ ok tt
  unfolding build_from
  Distinct-build_from seen [] d a = refl
  Distinct-build_from seen (produce k t fn u ∷ ns) d a = elim (Bool-cases (contains k seen)) [
    | inl e ↦ absurd (a.0 (contains-In k seen e))
    | inr e ↦ rw e (Distinct-build_from (k ∷ seen) ns d.1 (Apart-of_cons k (keys ns) seen d.0 a.1))
  ]
  Distinct-build_from seen (do_node l t fn u ∷ ns) d a = Distinct-build_from seen ns d a
  Distinct-build_from seen (try_node l t fn ∷ ns) d a = Distinct-build_from seen ns d a

  -- `Build` returns the given nodes as a plan exactly when no two of its Produce nodes bind the
  -- same key.
  pub build-iff_Distinct :
      (nodes : List (Node W Act Val)) → (build nodes ≡ ok nodes) ↔ Distinct (keys nodes)
  unfolding build
  build-iff_Distinct nodes = (
    λ h. (build_from-Distinct [] nodes (ground arith)).0,
    λ d. rw (Distinct-build_from [] nodes d (Apart-nil (keys nodes))),
  )

  lookup-step :
      (k : String) (n : Node W Act Val) (s t : Progress Act Val) (w v : W)
      → step n s w ≡ (ok t, v)
      → ¬ (In k (keys (n ∷ [])))
      → lookup k t.bindings ≡ lookup k s.bindings
  unfolding step lookup
  lookup-step k (produce j tg fn u) s t w v h f = elim (Bool-cases (j == k)) [
    | inl e ↦ absurd (f (inl (sym ((eq_iff j k).0 e))))
    | inr e ↦ ground (arith, e)
  ]
  lookup-step k (do_node l tg fn u) s t w v h f = ground arith
  lookup-step k (try_node l tg fn) s t w v h f = ground arith

  In-keys_tail :
      (k : String) (n : Node W Act Val) (ns : List (Node W Act Val))
      → In k (keys ns)
      → In k (keys (n ∷ ns))
  In-keys_tail k (produce j t fn u) ns m = inr m
  In-keys_tail k (do_node l t fn u) ns m = m
  In-keys_tail k (try_node l t fn) ns m = m

  In-keys_head :
      (k : String) (n : Node W Act Val) (ns : List (Node W Act Val))
      → In k (keys (n ∷ []))
      → In k (keys (n ∷ ns))
  In-keys_head k (produce j t fn u) ns (inl e) = inl e
  In-keys_head k (produce j t fn u) ns (inr m) = absurd m
  In-keys_head k (do_node l t fn u) ns m = absurd m
  In-keys_head k (try_node l t fn) ns m = absurd m

  lookup-interpret :
      (k : String) (ns : List (Node W Act Val)) (s t : Progress Act Val) (w v : W) (o : Option Err)
      → interpret ns s w ≡ (ok (t, o), v)
      → ¬ (In k (keys ns))
      → lookup k t.bindings ≡ lookup k s.bindings
  unfolding interpret
  lookup-interpret k [] s t w v o h f = ground arith
  lookup-interpret k (n ∷ ns) s t w v o h f = elim (Outcome-cases (step n s w)) [
    | inl (s', q) ↦
        lookup-interpret k ns s' t (step n s w).1 v o (ground (arith, q))
          (λ m. f (In-keys_tail k n ns m))
        ∙ lookup-step k n s s' w (step n s w).1 q (λ m. f (In-keys_head k n ns m))
    | inr (inl (x, q)) ↦ ground (arith, q)
    | inr (inr (m, q)) ↦ absurd (ground (arith, q))
  ]

Distinct-append : (ks ls : List String) → Distinct (ks ++ ls) → Distinct ls
Distinct-append [] ls d = d
Distinct-append (k ∷ ks) ls d = Distinct-append ks ls d.1

module _ {W Act Val : Type 0} where
  keys-append : (ns ms : List (Node W Act Val)) → keys (ns ++ ms) ≡ keys ns ++ keys ms
  keys-append [] ms = refl
  keys-append (produce k t fn u ∷ ns) ms = rw (keys-append ns ms)
  keys-append (do_node l t fn u ∷ ns) ms = keys-append ns ms
  keys-append (try_node l t fn ∷ ns) ms = keys-append ns ms

  interpret-append :
      (ns ms : List (Node W Act Val)) (s t : Progress Act Val) (w v : W)
      → interpret ns s w ≡ (ok (t, none), v)
      → interpret (ns ++ ms) s w ≡ interpret ms t v
  unfolding interpret
  interpret-append [] ms s t w v h = ground arith
  interpret-append (n ∷ ns) ms s t w v h = elim (Outcome-cases (step n s w)) [
    | inl (s', q) ↦ ground (arith, q, interpret-append ns ms s' t (step n s w).1 v)
    | inr (inl (x, q)) ↦ absurd (ground (arith, q))
    | inr (inr (m, q)) ↦ absurd (ground (arith, q))
  ]

  run-interpret :
      (execute : Act → Exec W (Unit {0})) (plan : List (Node W Act Val)) (w w' : W)
      (b : Bindings Val)
      → run execute plan w ≡ (ok b, w')
      → (t : Progress Act Val) × (interpret plan start w ≡ (ok (t, none), w')) × (t.bindings ≡ b)
  unfolding run
  run-interpret execute plan w w' b h = elim (Outcome-cases (interpret plan start w)) [
    | inl ((t, none), q) ↦ (t, ground (arith, q), ground (arith, q))
    | inl ((t, some x), q) ↦ absurd (ground (arith, q))
    | inr (inl (x, q)) ↦ absurd (ground (arith, q))
    | inr (inr (m, q)) ↦ absurd (ground (arith, q))
  ]

  step_binds :
      (k tg : String) (fn : Bindings Val → Exec W Val)
      (u : Option (Bindings Val → Outcome (List Act))) (s s' : Progress Act Val) (v v' u' : W)
      (x : Val)
      → fn s.bindings v ≡ (ok x, v')
      → step (produce k tg fn u) s v ≡ (ok s', u')
      → lookup k s'.bindings ≡ some x
  unfolding step lookup
  step_binds k tg fn u s s' v v' u' x h q = ground (arith, eq_refl k)

  -- In a plan that `Build` accepts, where the run returns bindings, the value that a Produce node
  -- returned in that run is the one that its key holds when the run ends.
  pub produced_value_kept :
      (execute : Act → Exec W (Unit {0})) (pre post : List (Node W Act Val)) (k tg : String)
      (fn : Bindings Val → Exec W Val) (u : Option (Bindings Val → Outcome (List Act)))
      (s : Progress Act Val) (w v v' w' : W) (x : Val) (b : Bindings Val)
      → build (pre ++ produce k tg fn u ∷ post) ≡ ok (pre ++ produce k tg fn u ∷ post)
      → interpret pre start w ≡ (ok (s, none), v)
      → fn s.bindings v ≡ (ok x, v')
      → run execute (pre ++ produce k tg fn u ∷ post) w ≡ (ok b, w')
      → lookup k b ≡ some x
  unfolding interpret
  produced_value_kept execute pre post k tg fn u s w v v' w' x b built before here done =
      let n : Node W Act Val = produce k tg fn u in
      let (t, whole, same) = run-interpret execute (pre ++ n ∷ post) w w' b done in
      let rest : interpret (n ∷ post) s v ≡ (ok (t, none), w') =
        sym (interpret-append pre (n ∷ post) start s w v before) ∙ whole in
      let fresh =
        (Distinct-append (keys pre) (keys (n ∷ post)) (
          subst Distinct (keys-append pre (n ∷ post))
            ((build-iff_Distinct (pre ++ n ∷ post)).0 built))).0 in
      elim (Outcome-cases (step n s v)) [
        | inl (s', q) ↦ ground (
          arith,
          same,
          lookup-interpret k post s' t (step n s v).1 w' none (ground (arith, q, rest)) fresh,
          step_binds k tg fn u s s' v v' (step n s v).1 x here q,
        )
        | inr (inl (e, q)) ↦ absurd (ground (arith, q, rest))
        | inr (inr (m, q)) ↦ absurd (ground (arith, q, rest))
      ]
