-- ===== src/Manager/Lookup.antt =====
-- Fetching a program or a link, with the store's error translated (manager/lookup.go).
use go_bpfman.Prelude.{ℕ, if◌then◌else◌}
use go_bpfman.Errors.{program_not_found, link_not_found, wrap, is_not_found}
use go_bpfman.Exec.{Exec, pure, fail, on_error}
use go_bpfman.Links.{LinkRecord}
use go_bpfman.Manager.World.{World, ManagerEnv, ProgramRecord, invoke}
use go_bpfman.Manager.World

module _ (env : ManagerEnv) where
  -- getProgram
  unfoldable pub get_program : ℕ → Exec World ProgramRecord
  get_program id =
      on_error (invoke env (World.get_program id) (λ w. env.program_of w id))
        (λ e. if is_not_found e then fail (program_not_found id) else fail (wrap "get program" e))
        pure

  -- getLink
  unfoldable pub get_link : ℕ → Exec World LinkRecord
  get_link id =
      on_error (invoke env (World.get_link id) (λ w. env.link_of w id))
        (λ e. if is_not_found e then fail (link_not_found id) else fail (wrap "get link" e)) pure
