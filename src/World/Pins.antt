-- ===== src/World/Pins.antt =====
-- Which pins a log leaves: pinned by a successful call, with no later call to remove them.
use go_bpfman.Prelude.{◌≡◌, ◌⊎◌, inl, inr, Text, codes, List, [], ◌∷◌, ◌++◌, In}
use go_bpfman.World.{
  Call, load_xdp, load_tc, attach_xdp, attach_tc, create_xdp_link, detach_link, remove_pin,
  remove_rev_dir, Event, done, failed, Log,
}

-- The path that a call pins when it succeeds.
abbrev pub CallPins : Call → Text → Type 0
CallPins (load_xdp _ path) p = p ≡ path
CallPins (load_tc _ path) p = p ≡ path
CallPins (attach_xdp spec) p = p ≡ spec.link_pin_path
CallPins (attach_tc spec) p = p ≡ spec.link_pin_path
CallPins (create_xdp_link _ _ link _) p = p ≡ link
CallPins _ p = ⊥

abbrev pub Pins : Event → Text → Type 0
Pins (done c) p = CallPins c p
Pins (failed c e) p = ⊥

-- The path lies in the directory.
abbrev pub InDir : Text → Text → Type 0
InDir dir p = (name : Text) × (p ≡ dir ++ codes "/" ++ name)

-- The paths whose removal a call asks for, successful or not.
abbrev pub CallReleases : Call → Text → Type 0
CallReleases (detach_link path) p = p ≡ path
CallReleases (remove_pin path) p = p ≡ path
CallReleases (remove_rev_dir path) p = InDir path p
CallReleases _ p = ⊥

abbrev pub Releases : Event → Text → Type 0
Releases (done c) p = CallReleases c p
Releases (failed c e) p = CallReleases c p

-- `p` was pinned, and nothing has asked for its removal since.
abbrev pub Leaked : Text → Log → Type 0
Leaked p [] = ⊥
Leaked p (ev ∷ log) = Pins ev p ⊎ (¬ (Releases ev p) × Leaked p log)

-- Of the pins that `log` leaves, those that `start` did not leave are among `ps`.
abbrev pub Within : Log → List Text → Log → Type 0
Within start ps log = (p : Text) → Leaked p log → Leaked p start ⊎ In p ps

pub Within-refl : (l : Log) → Within l [] l
Within-refl l p h = inl h

pub Within-weaken :
    (l : Log) (ps qs : List Text) (log : Log)
    → Within l ps log
    → ((p : Text) → In p ps → In p qs)
    → Within l qs log
Within-weaken l ps qs log w sub p h = elim (w p h) [ inl a ↦ inl a | inr m ↦ inr (sub p m) ]

-- A call that pins nothing.
pub Within-quiet :
    (l : Log) (ps : List Text) (log : Log) (ev : Event)
    → ((p : Text) → ¬ (Pins ev p))
    → Within l ps log
    → Within l ps (ev ∷ log)
Within-quiet l ps log ev quiet w p (inl a) = absurd (quiet p a)
Within-quiet l ps log ev quiet w p (inr h) = w p h.1

-- A call that pins `q`.
pub Within-pin :
    (l : Log) (ps : List Text) (log : Log) (ev : Event) (q : Text)
    → ((p : Text) → Pins ev p → p ≡ q)
    → Within l ps log
    → Within l (q ∷ ps) (ev ∷ log)
Within-pin l ps log ev q only w p (inl a) = inr (inl (only p a))
Within-pin l ps log ev q only w p (inr h) = elim (w p h.1) [ inl a ↦ inl a | inr m ↦ inr (inr m) ]

-- A call that asks for the removal of `q`.
pub Within-release :
    (l : Log) (ps : List Text) (log : Log) (ev : Event) (q : Text)
    → ((p : Text) → ¬ (Pins ev p))
    → ((p : Text) → p ≡ q → Releases ev p)
    → Within l (q ∷ ps) log
    → Within l ps (ev ∷ log)
Within-release l ps log ev q quiet gone w p (inl a) = absurd (quiet p a)
Within-release l ps log ev q quiet gone w p (inr h) = elim (w p h.1) [
  | inl a ↦ inl a
  | inr (inl e) ↦ absurd (h.0 (gone p e))
  | inr (inr m) ↦ inr m
]
