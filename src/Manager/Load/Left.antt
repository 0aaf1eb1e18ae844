-- ===== src/Manager/Load/Left.antt =====
-- The pins of the programs that were loaded and whose removal was not tried since.
use go_bpfman.Prelude.{
  Text, ◌≡◌, refl, sym, ◌∙◌, ◌↔◌, inl, inr, List, [], ◌∷◌, ◌++◌, In, text_eq, text_eq_iff,
  Bool-cases, if◌then◌else◌, arith,
}
use go_bpfman.Errors.{Err}
use go_bpfman.Programs.{LoadSpec}
use go_bpfman.Manager.World.{
  Call, Event, done, failed, Trace, World, ManagerEnv, load_program, unload_pin,
}
use go_bpfman.Manager.World.Since.{call_of, IsOther}

pub without_pin : Text → List Text → List Text
without_pin p [] = []
without_pin p (q ∷ pins) = let rest = without_pin p pins in if text_eq q p then rest else q ∷ rest

pub without_pin-iff_In :
    (p : Text) (pins : List Text) (a : Text) → In a (without_pin p pins) ↔ (In a pins × ¬ (a ≡ p))
unfolding without_pin
without_pin-iff_In p [] a = (λ i. absurd i, λ (i, _). absurd i)
without_pin-iff_In p (q ∷ pins) a = elim (Bool-cases (text_eq q p)) [
  | inl e ↦ rw e (
    λ i. let (j, n) = (without_pin-iff_In p pins a).0 i in (inr j, n),
    λ (i, n). elim i [
      | inl x ↦ absurd (n (x ∙ (text_eq_iff q p).0 e))
      | inr j ↦ (without_pin-iff_In p pins a).1 (j, n)
    ],
  )
  | inr e ↦ rw e (
    λ i. elim i [
      | inl x ↦ (inl x, λ y. absurd (cc (e, (text_eq_iff q p).1 (sym x ∙ y))))
      | inr k ↦ let (j, n) = (without_pin-iff_In p pins a).0 k in (inr j, n)
    ],
    λ (i, n). elim i [ inl x ↦ inl x | inr j ↦ inr ((without_pin-iff_In p pins a).1 (j, n)) ],
  )
]

module _ (env : ManagerEnv) where
  -- What an event makes of the pins that were left by the calls `t` before it.
  pub after_event : Event → Trace → List Text → List Text
  unfolding without_pin
  after_event (done (load_program spec)) t pins = (env.output_of t spec).pin_path ∷ pins
  after_event (done (unload_pin p)) t pins = without_pin p pins
  after_event (failed (unload_pin p) e) t pins = without_pin p pins
  after_event _ t pins = pins

  unfoldable pub left_pins : Trace → List Text
  unfolding after_event
  left_pins [] = []
  left_pins (ev ∷ t) = after_event ev t (left_pins t)

  -- The call neither loads a program nor removes a pin.
  abbrev pub IsQuiet : Call → Type 0
  IsQuiet (load_program _) = ⊥
  IsQuiet (unload_pin _) = ⊥
  IsQuiet _ = Unit

  after_quiet :
      (ev : Event) (t : Trace) (pins : List Text)
      → IsQuiet (call_of ev)
      → after_event ev t pins ≡ pins
  unfolding after_event
  after_quiet (done (load_program _)) t pins h = absurd h
  after_quiet (done (unload_pin _)) t pins h = absurd h
  after_quiet (failed (unload_pin _) _) t pins h = absurd h
  after_quiet _ t pins h = refl

  after_other :
      (ev : Event) (t : Trace) (pins : List Text) (a : Text)
      → IsOther (call_of ev)
      → In a (after_event ev t pins)
      → In a pins
  unfolding after_event
  after_other (done (load_program _)) t pins a h i = absurd h
  after_other (done (unload_pin p)) t pins a h i = ((without_pin-iff_In p pins a).0 i).0
  after_other (failed (unload_pin p) _) t pins a h i = ((without_pin-iff_In p pins a).0 i).0
  after_other _ t pins a h i = i

  -- At most these pins are left, and exactly these.
  module _ (start : World) (pins : List Text) where
    abbrev pub Within : Trace → Type 0
    Within new = (a : Text) → In a (left_pins (new ++ start.trace)) → In a pins

    abbrev pub Exactly : Trace → Type 0
    Exactly new = (a : Text) → In a (left_pins (new ++ start.trace)) ↔ In a pins

    pub Within-closed :
        (ev : Event) (new : Trace) → IsOther (call_of ev) → Within new → Within (ev ∷ new)
    unfolding left_pins
    Within-closed ev new o h a i = h a (after_other ev (new ++ start.trace) _ a o i)

    pub Exactly-closed :
        (ev : Event) (new : Trace) → IsQuiet (call_of ev) → Exactly new → Exactly (ev ∷ new)
    unfolding left_pins
    Exactly-closed ev new q h a =
        rw (after_quiet ev (new ++ start.trace) (left_pins (new ++ start.trace)) q) (h a)

  module _ (start : World) (p : Text) (pins : List Text) where
    -- An attempt to remove the pin at the head.
    pub Within-removed :
        (new : Trace)
        → Within start (p ∷ pins) new
        → Within start pins (done (unload_pin p) ∷ new)
          × ((e : Err) → Within start pins (failed (unload_pin p) e ∷ new))
    unfolding left_pins after_event
    Within-removed new h =
        let removed : (a : Text)
            → In a (without_pin p (left_pins (new ++ start.trace)))
            → In a pins =
          λ a i.
            let (j, n) = (without_pin-iff_In p (left_pins (new ++ start.trace)) a).0 i in
            elim (h a j) [ inl x ↦ absurd (n x) | inr k ↦ k ] in
        (removed, λ _. removed)

    -- A load that pins its program there.
    pub Exactly-loaded :
        (new : Trace) (spec : LoadSpec)
        → (env.output_of (new ++ start.trace) spec).pin_path ≡ p
        → Exactly start pins new
        → Exactly start (p ∷ pins) (done (load_program spec) ∷ new)
    unfolding left_pins after_event
    Exactly-loaded new spec e h a = rw e (ground (arith, h a))

    -- A load that failed.
    pub Exactly-not_loaded :
        (new : Trace) (spec : LoadSpec) (e : Err)
        → Exactly start pins new
        → Exactly start pins (failed (load_program spec) e ∷ new)
    unfolding left_pins after_event
    Exactly-not_loaded new spec e h a = h a
