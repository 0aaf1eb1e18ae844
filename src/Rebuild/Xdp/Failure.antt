-- ===== src/Rebuild/Xdp/Failure.antt =====
-- rebuildXDPDispatcher (manager/executor_dispatcher.go): what a failure leaves pinned.
use go_bpfman.Prelude.{◌≡◌, get_elem?, ltb, length, ℕ, inl, inr, ℤ, Text, List, [], ◌∷◌, Option}
use go_bpfman.Errors.{plain, Err}
use go_bpfman.Exec.{ok, err, fail, ◌>>=◌, ◌>>◌}
use go_bpfman.Platform.{Key, DispatcherMember, DispatcherSnapshot, xdp}
use go_bpfman.Dispatcher.Config.{xdp_config_for, max_programs}
use go_bpfman.Slots.{RebuildSlot, all_slots, sort_rebuild_slots}
use go_bpfman.Dispatcher.Mask.{proceed_on_actions}
use go_bpfman.Layout.{dispatcher_prog_path}
use go_bpfman.World.{nsid, attach_xdp, load_xdp, Log, Env}
use go_bpfman.World.Pins.{Leaked, Within, Within-refl}
use go_bpfman.World.Triples.{
  Post, Post_bind, Post_wrapped, Post_if, Post_err, invoke_quiet, invoke_pin,
}
use go_bpfman.Rebuild.{
  chosen_position, element, remove_old, dispatcher_members, stored_members, AttachedExt, lift,
  cleanup_new_dispatcher,
}
use go_bpfman.Rebuild.Cleanup.{
  dispatcher_members-Post, attach_slots-Within, cleanup_new_dispatcher-Within,
}
use go_bpfman.Rebuild.Keeps.{
  Clean, held, Loaded, query_snapshot-Clean, verify_extensions-Within, remove_old_any, lift-Post,
  element_any, lift_ok,
}
use go_bpfman.Rebuild.Xdp.Swap.{swapped, swap-Within, persist-Within}
use go_bpfman.Rebuild.Xdp.{
  configured, new_slot, XdpRequest, XdpPlan, prepare, swap, new_snapshot, persist, result,
  rebuild_xdp_dispatcher,
}

module _ (env : Env) (q : XdpRequest) (start : Log) where
  configured-Clean :
      (key : Key) (snap : Option DispatcherSnapshot) (slots : List RebuildSlot) (log : Log)
      → Clean start log
      → Post (Clean start) (λ _. Clean start) (configured env q key snap slots log)
  unfolding configured
  configured-Clean key snap slots log w =
      Post_bind (Clean start) (λ _. Clean start) (λ _. Clean start) _ _
        (Post_wrapped (Clean start) (λ _. Clean start) "create XDP dispatcher config" _
          (lift-Post (Clean start) (xdp_config_for slots) log w))
        (λ c j t. t)

  prepare-Clean :
      (log : Log) → Clean start log → Post (Clean start) (λ _. Clean start) (prepare env q log)
  unfolding prepare
  prepare-Clean log w =
      Post_bind (Clean start) (λ _. Clean start) (λ _. Clean start) _ _
        (Post_wrapped (Clean start) (λ _. Clean start) "get nsid" _
          (invoke_quiet env start [] (nsid q.netns_path) (λ l. env.nsid_of l q.netns_path) log
            (λ x e. e) w))
        (λ ns l v.
          let key : Key = record { typ = xdp; nsid = ns; ifindex = q.ifindex } in
          Post_bind (Clean start) (λ _. Clean start) (λ _. Clean start) _ _
            (query_snapshot-Clean env start key l v)
            (λ snap k u.
              let slots = all_slots (stored_members snap) (new_slot q) in
              Post_if (Clean start) (λ _. Clean start) (ltb max_programs (length slots))
                (fail (plain "no free dispatcher slots"))
                (configured env q key snap (sort_rebuild_slots slots)) k u
                (configured-Clean key snap (sort_rebuild_slots slots) k u)))

  -- The result has no error where the stored mask decodes.
  result_any :
      (p : XdpPlan) (id : ℕ) (attached : List AttachedExt) (members : List DispatcherMember)
      (acts : List ℤ) (log : Log)
      → proceed_on_actions xdp q.proceed_on ≡ ok acts
      → Post (Clean start) (λ _ _. Unit) (result env q p id attached members log)
  unfolding result
  result_any p id attached members acts log decodes =
      Post_bind (Clean start) (λ _ _. Unit) (λ _ _. Unit)
        (element (get_elem? attached (chosen_position p.slots attached)) log) _
        (element_any (Clean start) (get_elem? attached (chosen_position p.slots attached)) log)
        (λ ext l _.
          Post_bind (Clean start) (λ _ _. Unit) (λ _ _. Unit) _ _
            (lift_ok (Clean start) "decode XDP proceed-on" (proceed_on_actions xdp q.proceed_on)
              acts l decodes)
            (λ _ k _.
              Post_bind (Clean start) (λ _ _. Unit) (λ _ _. Unit)
                (element (get_elem? members (chosen_position p.slots attached)) k) _
                (element_any (Clean start) (get_elem? members (chosen_position p.slots attached)) k)
                (λ _ _ _. tt)))

  -- From the swap on.
  finish :
      (acts : List ℤ)
      → proceed_on_actions xdp q.proceed_on ≡ ok acts
      → (p : XdpPlan) (id : ℕ) (attached : List AttachedExt) (log : Log)
      → Loaded env start p.key p.revision attached log
      → Post
          (Clean start)
          (λ _ _. Unit)
          (((swap env q p attached p.snap) >>= (λ link_id.
              (lift (dispatcher_members p.slots attached)) >>= (λ specs.
                persist env q p attached (new_snapshot env q p id link_id specs) >>= (λ members.
                  remove_old env p.key p.snap >> result env q p id attached members))))
            log)
  finish acts decodes p id attached log (pinned, w) =
      Post_bind (Clean start) (λ _. After) (λ _ _. Unit) _ _
        (swap-Within env q start p attached p.snap log (pinned, w))
        (λ link_id l0 w0.
          Post_bind (Clean start) (λ _. After) (λ _ _. Unit) _ _
            (dispatcher_members-Post (Clean start) After p.slots attached l0 w0)
            (λ specs l1 w1.
              Post_bind (Clean start) (λ _. After) (λ _ _. Unit) _ _
                (persist-Within env q start p attached (new_snapshot env q p id link_id specs) l1
                  pinned w1)
                (λ members l2 _.
                  Post_bind (Clean start) (λ _ _. Unit) (λ _ _. Unit) _ _
                    (remove_old_any env start p.key p.snap l2)
                    (λ _ l3 _. result_any p id attached members acts l3 decodes))))
    where
      After : Log → Type 0
      After = Within start (swapped env q start p attached p.snap)

  rebuild-Clean :
      (acts : List ℤ)
      → proceed_on_actions xdp q.proceed_on ≡ ok acts
      → Post (Clean start) (λ _ _. Unit) (rebuild_xdp_dispatcher env q start)
  unfolding rebuild_xdp_dispatcher
  rebuild-Clean acts decodes =
      Post_bind (Clean start) (λ _. Clean start) (λ _ _. Unit) _ _
        (prepare-Clean start (Within-refl start))
        (λ p l0 w0.
          Post_bind (Clean start)
            (λ _. Within start (dispatcher_prog_path env.base p.key p.revision ∷ [])) (λ _ _. Unit)
            _ _
            (Post_wrapped (Clean start)
              (λ _. Within start (dispatcher_prog_path env.base p.key p.revision ∷ []))
              "load XDP dispatcher" _
              (invoke_pin env start []
                (load_xdp p.config (dispatcher_prog_path env.base p.key p.revision))
                (λ l. env.program_id_of l (dispatcher_prog_path env.base p.key p.revision)) l0
                (dispatcher_prog_path env.base p.key p.revision) (λ x e. e) w0))
            (λ id l1 w1.
              Post_bind (Clean start) (Loaded env start p.key p.revision) (λ _ _. Unit) _ _
                (attach_slots-Within env start attach_xdp (λ _ x e. e) p.key p.revision
                  (dispatcher_prog_path env.base p.key p.revision) "attach XDP extension"
                  (cleanup_new_dispatcher env (dispatcher_prog_path env.base p.key p.revision))
                  (cleanup_new_dispatcher-Within env start (Clean start)
                    (dispatcher_prog_path env.base p.key p.revision) [])
                  0 [] p.slots l1 (tt, w1))
                (λ attached l2 w2.
                  Post_bind (Clean start)
                    (λ _. Within start (held env start p.key p.revision attached)) (λ _ _. Unit) _ _
                    (verify_extensions-Within env start (held env start p.key p.revision attached)
                      attached l2 w2.1)
                    (λ _ l3 w3. finish acts decodes p id attached l3 (w2.0, w3)))))

-- Where the proceed-on mask decodes, an XDP rebuild that returns an error leaves no pin that was not
-- there before: every path that it has pinned it has asked to remove.
pub rebuild_xdp_dispatcher-err_leaves_no_pin :
    (env : Env) (q : XdpRequest) (acts : List ℤ) (log log' : Log) (e : Err)
    → proceed_on_actions xdp q.proceed_on ≡ ok acts
    → rebuild_xdp_dispatcher env q log ≡ (err e, log')
    → (p : Text) → Leaked p log'
    → Leaked p log
rebuild_xdp_dispatcher-err_leaves_no_pin env q acts log log' e decodes fails p h =
    elim (Post_err (Within log []) (λ _ _. Unit) (rebuild_xdp_dispatcher env q log) e log'
      (rebuild-Clean env q log acts decodes) fails p h) [
        | inl old ↦ old
        | inr none_in ↦ absurd none_in
      ]
