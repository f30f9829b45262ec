-- ===== src/Multithreading/Errors.antt =====
-- `exit_on_error` of deadlock.c, ordered_lock.c, mutex.c and the dining_philosophers programs, and
-- a default mutex of the pthread library.
use operating_systems_and_ne.Base.{ℕ, Option, ◌==◌, if◌then◌else◌}

abbrev pub exit_success : ℕ
exit_success = 0

abbrev pub exit_failure : ℕ
exit_failure = 1

-- What becomes of the process after a checked call.
pub data Flow : Type 0 where
  go_on : Flow
  exit_process : (code : ℕ) → Flow

-- The call of `perror` in between only prints.
unfoldable pub exit_on_error : ℕ → Flow
exit_on_error err = if err == 0 then Flow.go_on else Flow.exit_process exit_failure

-- A mutex is its owner, if it has one. A thread that locks a held mutex waits: it has no step.
abbrev pub Mutex : Type 0
Mutex = Option ℕ
