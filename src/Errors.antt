-- ===== src/Errors.antt =====
-- Go errors as values (errors.go, and the sentinels of platform). A formatted message keeps its
-- fixed part; what `errors.Is` and `errors.As` look for is kept as a constructor.
use go_bpfman.Prelude.{ℕ, String, Text, Bool, true, false, ◌||◌, List, [], ◌∷◌, Option, none, some}

pub data Err : Type 0 where
  -- platform.ErrRecordNotFound
  record_not_found : Err
  -- bpfman.ErrProgramNotFound, ErrProgramNotManaged and ErrLinkNotFound
  program_not_found : ℕ → Err
  program_not_managed : ℕ → Err
  link_not_found : ℕ → Err
  -- context.Canceled, context.DeadlineExceeded, and lock.TimeoutError
  canceled : Err
  deadline_exceeded : Err
  timeout_error : (path : Text) (timeout : ℕ) → Err
  -- errors.New, and fmt.Errorf with no %w
  plain : String → Err
  -- fmt.Errorf("...: %w", err)
  wrap : String → Err → Err
  -- errors.Join of one error, and of one more
  joined : Err → Err
  join_cons : Err → Err → Err

-- errors.Is(err, platform.ErrRecordNotFound)
unfoldable pub is_not_found : Err → Bool
is_not_found record_not_found = true
is_not_found (program_not_found _) = false
is_not_found (program_not_managed _) = false
is_not_found (link_not_found _) = false
is_not_found canceled = false
is_not_found deadline_exceeded = false
is_not_found (timeout_error _ _) = false
is_not_found (plain _) = false
is_not_found (wrap _ e) = is_not_found e
is_not_found (joined e) = is_not_found e
is_not_found (join_cons d e) = is_not_found d || is_not_found e

-- errors.As(err, &ErrProgramNotFound{})
unfoldable pub is_program_not_found : Err → Bool
is_program_not_found (program_not_found _) = true
is_program_not_found record_not_found = false
is_program_not_found (program_not_managed _) = false
is_program_not_found (link_not_found _) = false
is_program_not_found canceled = false
is_program_not_found deadline_exceeded = false
is_program_not_found (timeout_error _ _) = false
is_program_not_found (plain _) = false
is_program_not_found (wrap _ e) = is_program_not_found e
is_program_not_found (joined e) = is_program_not_found e
is_program_not_found (join_cons d e) = is_program_not_found d || is_program_not_found e

-- errors.Is(err, context.DeadlineExceeded)
unfoldable pub is_deadline_exceeded : Err → Bool
is_deadline_exceeded deadline_exceeded = true
is_deadline_exceeded record_not_found = false
is_deadline_exceeded (program_not_found _) = false
is_deadline_exceeded (program_not_managed _) = false
is_deadline_exceeded (link_not_found _) = false
is_deadline_exceeded canceled = false
is_deadline_exceeded (timeout_error _ _) = false
is_deadline_exceeded (plain _) = false
is_deadline_exceeded (wrap _ e) = is_deadline_exceeded e
is_deadline_exceeded (joined e) = is_deadline_exceeded e
is_deadline_exceeded (join_cons d e) = is_deadline_exceeded d || is_deadline_exceeded e

join_from : Err → List Err → Err
join_from d [] = joined d
join_from d (e ∷ es) = join_cons d (join_from e es)

-- errors.Join(errs...), which is nil for no errors
unfoldable pub errors_join : List Err → Option Err
unfolding join_from
errors_join [] = none
errors_join (e ∷ es) = some (join_from e es)
