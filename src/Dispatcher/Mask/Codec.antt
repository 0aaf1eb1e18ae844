-- ===== src/Dispatcher/Mask/Codec.antt =====
-- ProceedOnMask and ProceedOnActions (dispatcher/dispatcher.go) as an encoder and its decoder.
use mathlib.Core.Path.{subst}
use go_bpfman.Prelude.{
  ◌≡◌, refl, sym, ◌∙◌, ◌⊎◌, inl, inr, ◌↔◌, ℕ, zero, suc, ◌+◌, ◌≤◌, ◌<◌, ℤ, pos, negsuc, true,
  Bool-cases, ◌==◌, List, [], ◌∷◌, All, In, arith,
}
use go_bpfman.Exec.{Outcome, ok, err, panic}
use go_bpfman.Platform.{DispatcherType, unset, xdp, tc_ingress, tc_egress}
use go_bpfman.Dispatcher.Mask.{
  validate_proceed_on_code, has_bit, set_bit, add_offset, sub_offset, set_bit_at, add_code,
  mask_from, proceed_on_mask, actions_from, proceed_on_actions, proceed_on_offset,
}
use go_bpfman.Dispatcher.Mask.Bits.{has_bit-set_bit, has_bit-zero}

sub_offset-add : (c : ℤ) (k b : ℕ) → add_offset c k ≡ pos b → sub_offset b k ≡ c
sub_offset-add (pos n) k b e = ground (arith, e)
sub_offset-add (negsuc n) k b e = ground (arith, e)

set_bit_at-ok :
    (m m' : ℕ) (z : ℤ)
    → set_bit_at m z ≡ ok m'
    → (b : ℕ) × (z ≡ pos b) × (b < 32) × (m' ≡ set_bit m b)
unfolding set_bit_at
set_bit_at-ok m m' (negsuc n) e = absurd (ground (arith, e))
set_bit_at-ok m m' (pos b) e = (b, refl, ground (arith, e), ground (arith, e))

module _ (dt : DispatcherType) (k : ℕ) where
  -- A code that the encoder accepts, at its bit.
  abbrev Good : ℤ → Type 0
  Good c = (validate_proceed_on_code dt c ≡ ok tt) × (b : ℕ) × (add_offset c k ≡ pos b) × (b < 32)

  abbrev Coded : List ℤ → ℕ → Type 0
  Coded codes b = (c : ℤ) × In c codes × (add_offset c k ≡ pos b)

  add_code-ok :
      (m m' : ℕ) (c : ℤ)
      → add_code dt k m c ≡ ok m'
      → (validate_proceed_on_code dt c ≡ ok tt)
        × (b : ℕ) × (add_offset c k ≡ pos b)
        × (b < 32)
        × (m' ≡ set_bit m b)
  unfolding add_code
  add_code-ok m m' c e = go (validate_proceed_on_code dt c) refl e
    where
      go :
          (r : Outcome (Unit {0}))
          → validate_proceed_on_code dt c ≡ r
          → elim r [ ok _ ↦ set_bit_at m (add_offset c k) | err x ↦ err x | panic p ↦ panic p ]
            ≡ ok m'
          → (validate_proceed_on_code dt c ≡ ok tt)
            × (b : ℕ) × (add_offset c k ≡ pos b)
            × (b < 32)
            × (m' ≡ set_bit m b)
      go (ok _) q h =
          let (b, at, small, set) = set_bit_at-ok m m' (add_offset c k) h in (q, b, at, small, set)
      go (err x) q h = absurd (ground (arith, h))
      go (panic p) q h = absurd (ground (arith, h))

  -- The bits of the mask are those it had and those of the codes, all of which are good.
  abbrev Encodes : ℕ → List ℤ → ℕ → Type 0
  Encodes m codes mask =
      All Good codes
      × ((b : ℕ) → has_bit mask b ≡ true → (has_bit m b ≡ true) ⊎ Coded codes b)
      × ((b : ℕ) → (has_bit m b ≡ true) ⊎ Coded codes b → has_bit mask b ≡ true)

  added :
      (m m' b b' : ℕ) (c : ℤ) (codes : List ℤ)
      → m' ≡ set_bit m b
      → add_offset c k ≡ pos b
      → has_bit m' b' ≡ true
      → (has_bit m b' ≡ true) ⊎ Coded (c ∷ codes) b'
  added m m' b b' c codes set at h = elim (Bool-cases (b == b')) [
    | inl e ↦ inr (c, inl refl, ground (arith, e, at))
    | inr e ↦ inl (ground (arith, e, h, set, has_bit-set_bit b m b'))
  ]

  kept :
      (m m' b b' : ℕ) → m' ≡ set_bit m b → (b ≡ b') ⊎ (has_bit m b' ≡ true) → has_bit m' b' ≡ true
  kept m m' b b' set (inl e) = ground (arith, set, e, has_bit-set_bit b m b')
  kept m m' b b' set (inr e) = ground (arith, set, e, has_bit-set_bit b m b')

  mask_from-Encodes :
      (codes : List ℤ) (m mask : ℕ) → mask_from dt k m codes ≡ ok mask → Encodes m codes mask
  unfolding mask_from
  mask_from-Encodes [] m mask e = (
    tt,
    λ b h. inl (ground (arith, h, e)),
    λ b h. elim h [ inl x ↦ ground (arith, x, e) | inr (c, i, a) ↦ absurd i ],
  )
  mask_from-Encodes (c ∷ codes) m mask e =
      go (add_code dt k m c) refl (λ m'. mask_from-Encodes codes m' mask) e
    where
      go :
          (r : Outcome ℕ)
          → add_code dt k m c ≡ r
          → ((m' : ℕ) → mask_from dt k m' codes ≡ ok mask → Encodes m' codes mask)
          → elim r [ ok m' ↦ mask_from dt k m' codes | err x ↦ err x | panic p ↦ panic p ] ≡ ok mask
          → Encodes m (c ∷ codes) mask
      go (ok m') q ih h =
          let (valid, b, at, small, set) = add_code-ok m m' c q in
          let (good, from, to) = ih m' h in
          (
            ((valid, b, at, small), good),
            λ b' h'. elim (from b' h') [
              | inl x ↦ added m m' b b' c codes set at x
              | inr (c', i, a) ↦ inr (c', inr i, a)
            ],
            λ b' h'. elim h' [
              | inl x ↦ to b' (inl (kept m m' b b' set (inr x)))
              | inr (c', inl e', a) ↦
                  to b' (inl (kept m m' b b' set (inl (ground (arith, e', a, at)))))
              | inr (c', inr i, a) ↦ to b' (inr (c', i, a))
            ],
          )
      go (err x) q ih h = absurd (ground (arith, h))
      go (panic p) q ih h = absurd (ground (arith, h))

  -- A decoded code is that of a set bit in the range.
  abbrev Decoded : ℕ → ℕ → ℕ → ℤ → Type 0
  Decoded mask n bit c =
      (b : ℕ) × (bit ≤ b) × (b < bit + n) × (has_bit mask b ≡ true) × (c ≡ sub_offset b k)

  abbrev Decodes : ℕ → ℕ → ℕ → Type 0
  Decodes mask n bit =
      (acts : List ℤ) × (actions_from dt k mask n bit ≡ ok acts)
      × ((c : ℤ) → In c acts → Decoded mask n bit c)
      × ((c : ℤ) → Decoded mask n bit c → In c acts)

  actions_from-Decodes :
      (mask n bit : ℕ)
      → ((b : ℕ) → has_bit mask b ≡ true → validate_proceed_on_code dt (sub_offset b k) ≡ ok tt)
      → Decodes mask n bit
  unfolding actions_from
  actions_from-Decodes mask zero bit valid =
      ([], refl, λ c i. absurd i, λ c (b, low, high, set, e). absurd (omega (arith, low, high)))
  actions_from-Decodes mask (suc n) bit valid =
      let (acts, rest, from, to) = actions_from-Decodes mask n (suc bit) valid in
      elim (Bool-cases (has_bit mask bit)) [
        | inl set ↦ (
          sub_offset bit k ∷ acts,
          ground (arith, set, rest, valid bit set),
          λ c i. elim i [
            | inl e ↦ (bit, omega arith, omega arith, set, e)
            | inr j ↦
                let (b, low, high, s, e) = from c j in
                (b, omega (arith, low), omega (arith, high), s, e)
          ],
          λ c (b, low, high, s, e). elim (Bool-cases (bit == b)) [
            | inl same ↦ inl (ground (arith, e, same))
            | inr other ↦ inr (to c (b, ground (arith, low, other), omega (arith, high), s, e))
          ],
        )
        | inr clear ↦ (
          acts,
          ground (arith, clear, rest),
          λ c j.
              let (b, low, high, s, e) = from c j in
              (b, omega (arith, low), omega (arith, high), s, e),
          λ c (b, low, high, s, e). elim (Bool-cases (bit == b)) [
            | inl same ↦ absurd (ground (arith, s, clear, same))
            | inr other ↦ to c (b, ground (arith, low, other), omega (arith, high), s, e)
          ],
        )
      ]

  In-Good : (codes : List ℤ) (c : ℤ) → All Good codes → In c codes → Good c
  In-Good [] c g i = absurd i
  In-Good (x ∷ codes) c g (inl e) = subst Good (sym e) g.0
  In-Good (x ∷ codes) c g (inr i) = In-Good codes c g.1 i

  codec :
      (codes : List ℤ) (mask : ℕ)
      → mask_from dt k 0 codes ≡ ok mask
      → (acts : List ℤ) × (actions_from dt k mask 32 0 ≡ ok acts)
        × ((c : ℤ) → In c acts ↔ In c codes)
  codec codes mask e =
      let (good, from, to) = mask_from-Encodes codes 0 mask e in
      let coded : (b : ℕ) → has_bit mask b ≡ true → Coded codes b =
        λ b h. elim (from b h) [ inl x ↦ absurd (ground (arith, x, has_bit-zero b)) | inr r ↦ r ] in
      let valid : (b : ℕ)
          → has_bit mask b ≡ true
          → validate_proceed_on_code dt (sub_offset b k) ≡ ok tt =
        λ b h.
          let (c, i, a) = coded b h in
          let same : sub_offset b k ≡ c = sub_offset-add c k b a in
          subst (λ x. validate_proceed_on_code dt x ≡ ok tt) (sym same)
            (In-Good codes c good i).0 in
      let (acts, all, back, forth) = actions_from-Decodes mask 32 0 valid in
      (
        acts,
        all,
        λ c. (
          λ i.
              let (b, low, high, s, q) = back c i in
              let (c', j, a) = coded b s in
              let same : c' ≡ c = sym (sub_offset-add c' k b a) ∙ sym q in
              subst (λ x. In x codes) same j,
          λ i.
              let (v, b, a, small) = In-Good codes c good i in
              forth c (
                b,
                omega arith,
                omega (arith, small),
                to b (inr (c, i, a)),
                sym (sub_offset-add c k b a),
              ),
        ),
      )

-- A mask that the encoder returns decodes, and to exactly the codes it was given, as a set.
pub proceed_on_actions-proceed_on_mask :
    (dt : DispatcherType) (codes : List ℤ) (mask : ℕ)
    → proceed_on_mask dt codes ≡ ok mask
    → (acts : List ℤ) × (proceed_on_actions dt mask ≡ ok acts) × ((c : ℤ) → In c acts ↔ In c codes)
unfolding proceed_on_mask proceed_on_actions proceed_on_offset
proceed_on_actions-proceed_on_mask unset codes mask e = absurd (ground (arith, e))
proceed_on_actions-proceed_on_mask xdp codes mask e = codec xdp 0 codes mask e
proceed_on_actions-proceed_on_mask tc_ingress codes mask e = codec tc_ingress 1 codes mask e
proceed_on_actions-proceed_on_mask tc_egress codes mask e = codec tc_egress 1 codes mask e
