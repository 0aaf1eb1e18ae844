-- ===== src/Actions/Names.antt =====
-- Parsing the name of an action.
use go_bpfman.Prelude.{
  String, Text, text_eq, text_eq_iff, ◌≡◌, refl, sym, ◌∙◌, ap, ◌↔◌, inl, inr, false, List, [], ◌∷◌,
  Option, none, some, All, In, Bool-cases, arith,
}
use mathlib.Core.Option.{some-injective}
use go_bpfman.Exec.{ok, err, panic}
use go_bpfman.Actions.{
  XdpAction, TcAction, xdp_actions, tc_actions, find_named, parsed, parse_xdp_action,
  parse_tc_action,
}

module _ {A : Type 0} (name : A → Text) where
  abbrev AreDistinct : List A → Type 0
  AreDistinct [] = Unit
  AreDistinct (a ∷ rest) = All (λ b. text_eq (name a) (name b) ≡ false) rest × AreDistinct rest

  find_named_sound :
      (key : Text) (xs : List A) (a : A)
      → find_named name key xs ≡ some a
      → In a xs × (name a ≡ key)
  unfolding find_named
  find_named_sound key [] a h = ground arith
  find_named_sound key (b ∷ xs) a h = elim (Bool-cases (text_eq (name b) key)) [
    | inl e ↦
        let same : b ≡ a = some-injective _ _ (rw e at h) in
        (inl (sym same), ap name (sym same) ∙ (text_eq_iff (name b) key).0 e)
    | inr e ↦ let (i, q) = find_named_sound key xs a (rw e at h) in (inr i, q)
  ]

  in_distinct :
      (b a : A) (xs : List A)
      → All (λ c. text_eq (name b) (name c) ≡ false) xs
      → In a xs
      → text_eq (name b) (name a) ≡ false
  in_distinct b a [] h i = absurd i
  in_distinct b a (c ∷ xs) (h, hs) (inl e) = rw e h
  in_distinct b a (c ∷ xs) (h, hs) (inr i) = in_distinct b a xs hs i

  find_named_complete :
      (xs : List A) (a : A) → AreDistinct xs → In a xs → find_named name (name a) xs ≡ some a
  unfolding find_named
  find_named_complete [] a d i = absurd i
  find_named_complete (b ∷ xs) a (d, ds) (inl e) =
      rw (← e, (text_eq_iff (name a) (name a)).1 refl) refl
  find_named_complete (b ∷ xs) a (d, ds) (inr i) =
      rw (in_distinct b a xs d i) (find_named_complete xs a ds i)

  ok-injective : {x y : A} → ok x ≡ ok y → x ≡ y
  ok-injective {x} e = ap (λ o. elim o [ ok z ↦ z | err _ ↦ x | panic _ ↦ x ]) e

  parsed_iff :
      (label : String) (key : Text) (xs : List A) (a : A)
      → AreDistinct xs
      → (parsed label (find_named name key xs) ≡ ok a) ↔ (In a xs × (name a ≡ key))
  unfolding parsed
  parsed_iff label key xs a d = (
    λ h. only (find_named name key xs) refl h,
    λ (i, e). rw (← e, find_named_complete xs a d i) refl,
  )
    where
      only :
          (o : Option A)
          → find_named name key xs ≡ o
          → parsed label o ≡ ok a
          → In a xs × (name a ≡ key)
      only none p h = ground arith
      only (some b) p h = find_named_sound key xs a (p ∙ ap some (ok-injective h))

-- ParseXDPAction returns an action exactly where the text, in lower case and without white space
-- around it, is the name of that action of the table.
pub parse_xdp_action_iff :
    (trim_space to_lower : Text → Text) (s : Text) (a : XdpAction)
    → (parse_xdp_action trim_space to_lower s ≡ ok a)
      ↔ (In a xdp_actions × (a.name ≡ trim_space (to_lower s)))
unfolding parse_xdp_action
parse_xdp_action_iff trim_space to_lower s a =
    parsed_iff (λ x. x.name) "unknown XDP action" (trim_space (to_lower s)) xdp_actions a
      (ground arith)

-- ParseTCAction returns an action exactly where the text, in lower case and without white space
-- around it, is the name of that action of the table.
pub parse_tc_action_iff :
    (trim_space to_lower : Text → Text) (s : Text) (a : TcAction)
    → (parse_tc_action trim_space to_lower s ≡ ok a)
      ↔ (In a tc_actions × (a.name ≡ trim_space (to_lower s)))
unfolding parse_tc_action
parse_tc_action_iff trim_space to_lower s a =
    parsed_iff (λ x. x.name) "unknown TC action" (trim_space (to_lower s)) tc_actions a
      (ground arith)
