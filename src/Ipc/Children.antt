-- ===== src/Ipc/Children.antt =====
-- `wait_report` of count_primes.c, count_files.c and count_files_fifo.c.
use operating_systems_and_ne.Base.{ℕ, zero, suc, Bool, true, false, Option, none, some, [], ◌∷◌}
use operating_systems_and_ne.Os.{Status, exited, signaled, stopped, M, pure, ◌>>=◌, ◌>>◌, perror}
use operating_systems_and_ne.Os.Process.{fprintf_stderr, waitpid}

-- `true` is its 0, `false` its -1.
abbrev pub report : Option Status → M Bool
report none = do perror "waitpid"; pure false
report (some (exited zero)) = pure true
report (some (exited (suc status))) = do
  fprintf_stderr "Child processed exited with status %d\n" [] (suc status ∷ [])
  pure false
report (some (signaled signal)) = do
  fprintf_stderr "Child processed was terminated by signal %d\n" [] (signal ∷ [])
  pure false
report (some (stopped signal)) = pure true

unfoldable pub wait_report : ℕ → M Bool
wait_report pid = do status ← waitpid pid; report status
