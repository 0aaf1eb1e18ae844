-- ===== src/Manager/Attach/Hook/Guard.antt =====
-- A program that is attached to a hook already is not attached to it again, and stays attached.
use go_bpfman.Prelude.{ℕ, true, ◌≡◌, refl, inl, inr, List, [], ◌∷◌, map, All, In, ◌==◌, arith}
use go_bpfman.Errors.{Err, wrap, program_not_found, is_not_found}
use go_bpfman.Exec.{fail, wrapped}
use go_bpfman.Exec.Ends.{Ends, Ends-wrapped, Ends-if, Ends-on_error}
use go_bpfman.Exec.Settled.{Settled, Settled-bind}
use go_bpfman.Exec.Total.{IsTotal, wrapping-IsTotal}
use go_bpfman.Links.{Link, direction_name}
use go_bpfman.Tcx.{TcxLinkInfo}
use go_bpfman.Manager.World.{
  Call, Event, done, failed, Trace, World, ManagerEnv, ProgramRecord, invoke,
}
use go_bpfman.Manager.World
use go_bpfman.Manager.World.Since.{call_of, Since, Since-cons, invoke-Ends}
use go_bpfman.Manager.Lookup
use go_bpfman.Manager.Detach.Total.{invoke-IsTotal}
use go_bpfman.Manager.Unload.Total.{get_program-IsTotal}
use go_bpfman.Manager.Attach.Hook.{TcxAttachSpec, is_attached, attach_behind, attach_tcx_program}

-- The call only asks: it looks a program, an interface, a namespace or the links of a hook up.
abbrev pub IsQuestion : Call → Type 0
IsQuestion (World.get_program _) = Unit
IsQuestion (World.interface_by_name _ _) = Unit
IsQuestion (World.nsid _) = Unit
IsQuestion (World.list_tcx_links _ _ _) = Unit
IsQuestion _ = ⊥

abbrev pub OnlyQuestions : Trace → Type 0
OnlyQuestions new = All (λ ev. IsQuestion (call_of ev)) new

-- The kernel's ids of the programs of some links.
abbrev pub programs_of : List TcxLinkInfo → List ℕ
programs_of links = map (λ l. l.kernel_program_id) links

is_attached_lem :
    (id : ℕ) (links : List TcxLinkInfo) → In id (programs_of links) → is_attached id links ≡ true
unfolding is_attached
is_attached_lem id [] i = absurd i
is_attached_lem id (l ∷ links) (inl e) =
    let same : (l.kernel_program_id == id) ≡ true = ground (arith, e) in rw same refl
is_attached_lem id (l ∷ links) (inr i) =
    let rest = is_attached_lem id links i in ground (arith, rest)

module _ (env : ManagerEnv) (start : World) where
  abbrev pub Asked : World → Type 0
  Asked = Since start OnlyQuestions

  -- A question, and what is known of its answer.
  Asked-Ends :
      {A : Type 0} (Q : A → Type 0) (c : Call) (value : World → A) (w : World)
      → IsQuestion c
      → (Asked w → Q (value w))
      → Asked w
      → Ends (λ _. Asked) (λ a v. Q a × Asked v) (invoke env c value w)
  Asked-Ends Q c value w q known s =
      invoke-Ends env (λ _. Asked) (λ a v. Q a × Asked v) c value w
        (known s, Since-cons start OnlyQuestions OnlyQuestions (done c) w w.log (λ new h. (q, h)) s)
        (λ e. Since-cons start OnlyQuestions OnlyQuestions (failed c e) w w.log (λ new h. (q, h)) s)

  get_program-Ends :
      (id : ℕ) (w : World) → Asked w → Ends (λ _. Asked) (λ _. Asked) (Lookup.get_program env id w)
  unfolding Lookup.get_program
  get_program-Ends id w s =
      Ends-on_error (λ _. Asked) (λ _. Asked) (λ _ v. Unit {0} × Asked v) (λ _. Asked)
        (invoke env (World.get_program id) (λ v. env.program_of v id) w) _ _
        (Asked-Ends (λ _. Unit {0}) (World.get_program id) (λ v. env.program_of v id) w tt (λ _. tt)
          s)
        (λ e v i.
          Ends-if (λ _. Asked) (λ _. Asked) (is_not_found e) (fail (program_not_found id))
            (fail (wrap "get program" e)) v (λ _. i) (λ _. i))
        (λ p v i. i.1)

  module _ (spec : TcxAttachSpec) where
    behind-Settled :
        (ifindex nsid : ℕ) (prog : ProgramRecord) (links : List TcxLinkInfo) (w : World)
        → is_attached spec.program_id links ≡ true
        → Asked w
        → Settled (λ _. Asked) (λ _ _. ⊥) (attach_behind env spec ifindex nsid prog links w)
    unfolding attach_behind
    behind-Settled ifindex nsid prog links w h s = rw h (tt, s)

-- Where the interface and the namespace have the numbers of a hook, and the store lists a link of
-- the program at that hook, as long as nothing but lookups is called, attachTCX returns an error,
-- and all that it has called are lookups: it neither detaches the live link, whose pin a second one
-- would share, nor attaches or records anything.
pub attach_tcx_program-OnlyQuestions :
    (env : ManagerEnv) (spec : TcxAttachSpec) (w : World) (ifindex nsid : ℕ)
    → ((v : World) → Since w OnlyQuestions v → env.ifindex_of v spec.ifname spec.netns ≡ ifindex)
    → ((v : World) → Since w OnlyQuestions v → env.nsid_of v spec.netns ≡ nsid)
    → ((v : World)
        → Since w OnlyQuestions v
        → In spec.program_id
            (programs_of (env.tcx_links_of v nsid ifindex (direction_name spec.direction))))
    → Settled (λ _. Since w OnlyQuestions) (λ _ _. ⊥) (attach_tcx_program env spec w)
unfolding attach_tcx_program IsTotal
attach_tcx_program-OnlyQuestions env spec w ifindex nsid found named listed =
    let E : Err → World → Type 0 = λ _. Since w OnlyQuestions in
    let R : Link → World → Type 0 = λ _ _. ⊥ in
    let At : ℕ → World → Type 0 = λ i v. (i ≡ ifindex) × Since w OnlyQuestions v in
    let In_ns : ℕ → World → Type 0 = λ n v. (n ≡ nsid) × Since w OnlyQuestions v in
    let L : List TcxLinkInfo → World → Type 0 =
      λ links v. (is_attached spec.program_id links ≡ true) × Since w OnlyQuestions v in
    Settled-bind E At R
      (invoke env (World.interface_by_name spec.ifname spec.netns)
        (λ v. env.ifindex_of v spec.ifname spec.netns) w)
      _
      (
        invoke-IsTotal env _ _ w,
        Asked-Ends env w (λ i. i ≡ ifindex) (World.interface_by_name spec.ifname spec.netns) _ w tt
            (found w) ([], refl, tt),
      )
      λ index v i.
        Settled-bind E (λ _. Since w OnlyQuestions) R (Lookup.get_program env spec.program_id v) _
          (get_program-IsTotal env spec.program_id v, get_program-Ends env w spec.program_id v i.1)
          λ prog u j.
            Settled-bind E In_ns R
              (wrapped "get nsid"
                (invoke env (World.nsid spec.netns) (λ x. env.nsid_of x spec.netns) u))
              _
              (
                wrapping-IsTotal "get nsid" _
                    (invoke-IsTotal env (World.nsid spec.netns) (λ x. env.nsid_of x spec.netns)) u,
                Ends-wrapped E In_ns "get nsid" _ (
                    Asked-Ends env w (λ n. n ≡ nsid) (World.nsid spec.netns)
                      (λ x. env.nsid_of x spec.netns) u tt (named u) j),
              )
              λ ns t k.
                let c = World.list_tcx_links ns index (direction_name spec.direction) in
                let value : World → List TcxLinkInfo =
                  λ x. env.tcx_links_of x ns index (direction_name spec.direction) in
                Settled-bind E L R (wrapped "list existing TCX links" (invoke env c value t)) _
                  (
                    wrapping-IsTotal "list existing TCX links" _ (invoke-IsTotal env c value) t,
                    Ends-wrapped E L "list existing TCX links" _ (
                        Asked-Ends env w (λ links. is_attached spec.program_id links ≡ true) c value
                          t tt
                          (λ asked.
                            is_attached_lem spec.program_id (value t)
                              (rw (k.0, i.0) (listed t asked)))
                          k.1),
                  )
                  (λ links x (h, l). behind-Settled env w spec index ns prog links x h l)
