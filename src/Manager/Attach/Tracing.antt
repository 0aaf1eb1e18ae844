-- ===== src/Manager/Attach/Tracing.antt =====
-- The attaches of the tracing programs (manager/attach_tracing.go), by what they prepare.
use go_bpfman.Prelude.{
  ℕ, Text, codes, ℤ, pos, ltb_ℤ, Bool, false, ◌&&◌, ◌||◌, not, List, [], ◌∷◌, ◌++◌, text_eq, ◌==◌,
  if◌then◌else◌,
}
use go_bpfman.Errors.{plain}
use go_bpfman.Exec.{Exec, pure, fail, ◌>>=◌, ◌>>◌, wrapping}
use go_bpfman.Platform.{Labels}
use go_bpfman.Links.{
  Link, tracepoint_details, kprobe_details, uprobe_details, fentry_details, fexit_details,
  attach_tracepoint, attach_kprobe, attach_uprobe_local, attach_uprobe_container, attach_fentry,
  attach_fexit,
}
use go_bpfman.Programs.{is_empty}
use go_bpfman.Manager.World.{World, ManagerEnv, ProgramRecord, invoke, list_tracepoints}
use go_bpfman.Manager.Attach.{AttachPlan, simple_attach}

-- slices.Contains
contains_text : Text → List Text → Bool
contains_text s [] = false
contains_text s (t ∷ texts) = text_eq t s || contains_text s texts

-- filepath.IsAbs
is_abs : Text → Bool
is_abs [] = false
is_abs (c ∷ _) = c == 47

module _ (env : ManagerEnv) (program_id : ℕ) (metadata : Labels) where
  -- validateTracepointExists; the suggestions of its error are left out.
  unfoldable pub validate_tracepoint_exists : Text → Text → Exec World (Unit {0})
  unfolding contains_text
  validate_tracepoint_exists group name =
      wrapping "list tracepoints" (invoke env list_tracepoints (λ w. env.tracepoints_of w))
      >>= λ tps. elim tps [
        | [] ↦ pure tt
        | t ∷ rest ↦
            if contains_text (group ++ codes "/" ++ name) (t ∷ rest)
            then pure tt
            else fail (plain "tracepoint not found")
      ]

  -- attachTracepoint
  unfoldable pub attach_tracepoint_program : Text → Text → Exec World Link
  unfolding simple_attach validate_tracepoint_exists
  attach_tracepoint_program group name = simple_attach env (record {
    program_id = program_id;
    metadata = metadata;
    prepare = λ _ prog_pin.
        validate_tracepoint_exists group name
        >> pure (record {
          details = tracepoint_details group name;
          attach_action = λ path. attach_tracepoint prog_pin group name path;
        });
  })

  -- attachKprobe
  unfoldable pub attach_kprobe_program : Text → ℕ → Exec World Link
  unfolding simple_attach
  attach_kprobe_program fn_name offset = simple_attach env (record {
    program_id = program_id;
    metadata = metadata;
    prepare = λ prog prog_pin.
        let retprobe = text_eq prog.load.program_type (codes "kretprobe") in
        pure (record {
          details = kprobe_details fn_name offset retprobe;
          attach_action = λ path. attach_kprobe prog_pin fn_name offset retprobe path;
        });
  })

  -- The plan of attachUprobe; `has_scope` says whether the caller holds the writer lock.
  unfoldable pub prepare_uprobe :
      Bool → Text → Text → ℕ → ℤ → ℤ → ProgramRecord → Text → Exec World AttachPlan
  unfolding is_abs
  prepare_uprobe has_scope target fn_name offset pid container_pid prog prog_pin =
      let retprobe = text_eq prog.load.program_type (codes "uretprobe") in
      let in_container = ltb_ℤ (pos 0) container_pid in
      if is_empty fn_name && offset == 0
      then fail (plain "uprobe attach requires a function name or a non-zero offset")
      else if in_container && not (is_abs target)
      then fail (plain "container uprobe target must be an absolute path")
      else if in_container && not has_scope
      then fail (plain "container uprobe requires lock scope")
      else pure (record {
        details = uprobe_details target fn_name offset pid retprobe container_pid;
        attach_action = λ path.
            if in_container
            then attach_uprobe_container prog_pin target fn_name offset pid retprobe path
                container_pid
            else attach_uprobe_local prog_pin target fn_name offset pid retprobe path;
      })

  -- attachUprobe
  unfoldable pub attach_uprobe_program : Bool → Text → Text → ℕ → ℤ → ℤ → Exec World Link
  unfolding simple_attach prepare_uprobe
  attach_uprobe_program has_scope target fn_name offset pid container_pid =
      simple_attach env (record {
        program_id = program_id;
        metadata = metadata;
        prepare = prepare_uprobe has_scope target fn_name offset pid container_pid;
      })

  -- attachFentry
  unfoldable pub attach_fentry_program : Exec World Link
  unfolding simple_attach
  attach_fentry_program = simple_attach env (record {
    program_id = program_id;
    metadata = metadata;
    prepare = λ prog prog_pin.
        let fn_name = prog.load.attach_func in
        if is_empty fn_name
        then fail (plain "fentry requires attach function at load time")
        else pure (record {
          details = fentry_details fn_name;
          attach_action = λ path. attach_fentry prog_pin fn_name path;
        });
  })

  -- attachFexit
  unfoldable pub attach_fexit_program : Exec World Link
  unfolding simple_attach
  attach_fexit_program = simple_attach env (record {
    program_id = program_id;
    metadata = metadata;
    prepare = λ prog prog_pin.
        let fn_name = prog.load.attach_func in
        if is_empty fn_name
        then fail (plain "fexit requires attach function at load time")
        else pure (record {
          details = fexit_details fn_name;
          attach_action = λ path. attach_fexit prog_pin fn_name path;
        });
  })
