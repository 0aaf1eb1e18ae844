-- ===== src/Rebuild/Cleanup.antt =====
-- What the steps of a rebuild do to the pins.
use go_bpfman.Prelude.{
  String, ◌≡◌, ◌↔◌, refl, inl, inr, ℕ, suc, Text, Bool, true, false, if◌then◌else◌, text_eq,
  text_eq_iff, codes, List, [], ◌∷◌, ◌++◌, All, All-append, In, arith,
}
use go_bpfman.Errors.{Err, wrap}
use go_bpfman.Exec.{Outcome, ok, err, panic, Exec, fail, ◌>>◌, logged, pure}
use go_bpfman.Platform.{DispatcherMemberSpec, Key}
use go_bpfman.Slots.{RebuildSlot}
use go_bpfman.Layout.{extension_link_path, dispatcher_revision_dir, decimal}
use go_bpfman.Links.{AttachOutput}
use go_bpfman.World.{
  Call, detach_link, remove_pin, ExtensionAttachSpec, Log, Env, invoke, invoke_unit,
}
use go_bpfman.World.Pins.{CallPins, CallReleases, Within, Within-weaken}
use go_bpfman.World.Triples.{
  Post, Post_bind, Post_dropped, Post_on_error, invoke_quiet, invoke_pin, invoke_release,
}
use go_bpfman.Rebuild.{
  members_from, member_spec, dispatcher_members, lift, AttachedExt, cleanup_extensions,
  cleanup_new_dispatcher, attach_slots,
}

append-ne_nil : (a : Text) (x : ℕ) (b : Text) → ¬ ((a ++ x ∷ []) ++ b ≡ [])
append-ne_nil [] x b p = cc
append-ne_nil (y ∷ a) x b p = cc

extension_link_path-ne_nil :
    (base : Text) (k : Key) (revision position : ℕ)
    → ¬ (extension_link_path base k revision position ≡ [])
unfolding extension_link_path
extension_link_path-ne_nil base k revision position =
    append-ne_nil (dispatcher_revision_dir base k revision) 47 (codes "link_" ++ decimal position)

pub Pinned : AttachedExt → Type 0
Pinned ext = ¬ (ext.pin_path ≡ [])

abbrev pub pins : List AttachedExt → List Text
pins [] = []
pins (ext ∷ attached) = ext.pin_path ∷ pins attached

-- `D` is what would hold after an error: the cleanups have none.
module _ (env : Env) (start : Log) (D : Log → Type 0) where
  abbrev Kept : List Text → Log → Type 0
  Kept ps log = Within start ps log

  -- A logged call that asks for the removal of `path`.
  pub logged_release :
      (c : Call) (path : Text) (ps : List Text) (log : Log)
      → ((p : Text) → ¬ (CallPins c p))
      → ((p : Text) → p ≡ path → CallReleases c p)
      → Kept (path ∷ ps) log
      → Post D (λ _. Kept ps) (logged (invoke_unit env c) log)
  logged_release c path ps log quiet gone w =
      Post_dropped D (Kept ps) (Kept ps) (λ _. Kept ps) (invoke_unit env c log)
        (invoke_release env start ps c (λ _. tt) log path quiet gone w) (λ l h. h) (λ _ l h. h)

  -- A logged call that pins nothing.
  pub logged_quiet :
      {A : Type 0} (c : Call) (value : Log → A) (ps : List Text) (log : Log)
      → ((p : Text) → ¬ (CallPins c p))
      → Kept ps log
      → Post D (λ _. Kept ps) (logged (invoke env c value) log)
  logged_quiet c value ps log quiet w =
      Post_dropped D (Kept ps) (Kept ps) (λ _. Kept ps) (invoke env c value log)
        (invoke_quiet env start ps c value log quiet w) (λ l h. h) (λ _ l h. h)

  pub cleanup_new_dispatcher-Within :
      (path : Text) (ps : List Text) (log : Log)
      → Kept (path ∷ ps) log
      → Post D (λ _. Kept ps) (cleanup_new_dispatcher env path log)
  unfolding cleanup_new_dispatcher
  cleanup_new_dispatcher-Within path ps log w =
      logged_release (remove_pin path) path ps log (λ p h. h) (λ p e. e) w

  test_false : {P : Type 0} (b : Bool) → (b ≡ true) ↔ P → ¬ P → b ≡ false
  test_false true i h = absurd (h (i.0 refl))
  test_false false i h = refl

  cleanup_one :
      (b : Bool) (path : Text) (ps : List Text) (log : Log)
      → b ≡ false
      → Kept (path ∷ ps) log
      → Post D
          (λ _. Kept ps)
          ((if b then pure tt else logged (invoke_unit env (detach_link path))) log)
  cleanup_one true path ps log e w = absurd (ground (arith, e))
  cleanup_one false path ps log e w =
      logged_release (detach_link path) path ps log (λ p h. h) (λ p e. e) w

  pub cleanup_extensions-Within :
      (attached : List AttachedExt) (ps : List Text)
      → All Pinned attached
      → (log : Log) → Kept (pins attached ++ ps) log
      → Post D (λ _. Kept ps) (cleanup_extensions env attached log)
  unfolding cleanup_extensions Pinned
  cleanup_extensions-Within [] ps h log w = w
  cleanup_extensions-Within (ext ∷ attached) ps h log w =
      Post_bind D (λ _. Kept (pins attached ++ ps)) (λ _. Kept ps) _ _
        (cleanup_one (text_eq ext.pin_path []) ext.pin_path (pins attached ++ ps) log
          (test_false _ (text_eq_iff ext.pin_path []) h.0) w)
        (λ _ l v. cleanup_extensions-Within attached ps h.1 l v)

-- The pins of one more extension.
In-pins_snoc :
    (attached : List AttachedExt) (ext : AttachedExt) (ps : List Text) (p : Text)
    → In p (ext.pin_path ∷ pins attached ++ ps)
    → In p (pins (attached ++ ext ∷ []) ++ ps)
In-pins_snoc [] ext ps p h = h
In-pins_snoc (x ∷ attached) ext ps p (inl e) = inr (In-pins_snoc attached ext ps p (inl e))
In-pins_snoc (x ∷ attached) ext ps p (inr (inl e)) = inl e
In-pins_snoc (x ∷ attached) ext ps p (inr (inr h)) = inr (In-pins_snoc attached ext ps p (inr h))

module _ (env : Env) (start : Log) (attach : ExtensionAttachSpec → Call)
    (only : (spec : ExtensionAttachSpec) (p : Text)
      → CallPins (attach spec) p
      → p ≡ spec.link_pin_path)
    (key : Key) (revision : ℕ) (disp : Text) where
  abbrev Attached : List AttachedExt → Log → Type 0
  Attached attached log = All Pinned attached × Within start (pins attached ++ disp ∷ []) log

  -- On an error, what is attached so far and the new dispatcher are removed.
  pub undo-Attached :
      {A : Type 0} (Q : A → Log → Type 0) (undo : Exec Log (Unit {0}))
      → ((l : Log)
          → Within start (disp ∷ []) l
          → Post (Within start []) (λ _. Within start []) (undo l))
      → (attached : List AttachedExt) (e : Err) (log : Log) → Attached attached log
      → Post (Within start []) Q ((cleanup_extensions env attached >> (undo >> fail e)) log)
  undo-Attached Q undo undoes attached e log (pinned, w) =
      Post_bind (Within start []) (λ _. Within start (disp ∷ [])) Q
        (cleanup_extensions env attached log) (λ _. undo >> fail e)
        (cleanup_extensions-Within env start (Within start []) attached (disp ∷ []) pinned log w)
        (λ _ l v.
          Post_bind (Within start []) (λ _. Within start []) Q (undo l) (λ _. fail e) (undoes l v)
            (λ _ k u. u))

  pub attach_slots-Within :
      (label : String) (undo : Exec Log (Unit {0}))
      → ((l : Log)
          → Within start (disp ∷ []) l
          → Post (Within start []) (λ _. Within start []) (undo l))
      → (i : ℕ) (attached : List AttachedExt) (slots : List RebuildSlot) (log : Log)
      → Attached attached log
      → Post
          (Within start [])
          Attached
          (attach_slots env label attach undo key revision disp i attached slots log)
  unfolding attach_slots Pinned
  attach_slots-Within label undo undoes i attached [] log h = h
  attach_slots-Within label undo undoes i attached (slot ∷ slots) log h =
      Post_on_error (Within start (pins attached ++ disp ∷ [])) (Within start [])
        (λ _. Within start (path ∷ pins attached ++ disp ∷ [])) Attached _ _ _
        (invoke_pin env start (pins attached ++ disp ∷ []) (attach spec)
          (λ log. env.attach_output_of log spec) log path (only spec) h.1)
        (λ e l v. undo-Attached Attached undo undoes attached (wrap label e) l (h.0, v))
        (λ out l v.
          attach_slots-Within label undo undoes (suc i) (attached ++ ext out ∷ []) slots l (
            All-append Pinned attached (ext out ∷ []) h.0
                (extension_link_path-ne_nil env.base key revision i, tt),
            Within-weaken start (path ∷ pins attached ++ disp ∷ []) _ l v
                (In-pins_snoc attached (ext out) (disp ∷ [])),
          ))
    where
      path : Text
      path = extension_link_path env.base key revision i

      spec : ExtensionAttachSpec
      spec = record {
        dispatcher_pin_path = disp;
        prog_pin_path = slot.prog_pin_path;
        program_name = slot.program_name;
        position = i;
        link_pin_path = path;
      }

      ext : AttachOutput → AttachedExt
      ext out = record { out = out; position = i; pin_path = path }

-- The members are computed or an index is out of range: there is no error.
members_from-ne_err :
    (i : ℕ) (slots : List RebuildSlot) (attached : List AttachedExt) (e : Err)
    → ¬ (members_from i slots attached ≡ err e)
unfolding members_from
members_from-ne_err i [] attached e p = ground (arith, p)
members_from-ne_err i (slot ∷ slots) [] e p = ground (arith, p)
members_from-ne_err i (slot ∷ slots) (ext ∷ attached) e p =
    go (members_from (suc i) slots attached) (members_from-ne_err (suc i) slots attached) p
  where
    go :
        (r : Outcome (List DispatcherMemberSpec))
        → ((x : Err) → ¬ (r ≡ err x))
        → ¬ (
            elim r [
              | ok rest ↦ ok (member_spec i slot ext ∷ rest)
              | err x ↦ err x
              | panic m ↦ panic m
            ]
            ≡ err e)
    go (ok rest) h q = ground (arith, q)
    go (err x) h q = h x refl
    go (panic m) h q = ground (arith, q)

pub dispatcher_members-Post :
    (E : Log → Type 0) (R : Log → Type 0) (slots : List RebuildSlot) (attached : List AttachedExt)
    (log : Log)
    → R log
    → Post E (λ _. R) (lift (dispatcher_members slots attached) log)
unfolding dispatcher_members
dispatcher_members-Post E R slots attached log h =
    go (members_from 0 slots attached) (members_from-ne_err 0 slots attached)
  where
    go :
        (r : Outcome (List DispatcherMemberSpec))
        → ((x : Err) → ¬ (r ≡ err x))
        → Post E (λ _. R) (lift r log)
    go (ok rest) _ = h
    go (err x) k = absurd (k x refl)
    go (panic m) _ = tt
