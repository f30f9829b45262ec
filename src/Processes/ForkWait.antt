-- ===== src/Processes/ForkWait.antt =====
-- fork_wait.c: starts a child and waits twice. After `fork` a run goes on as the parent or, where the
-- answer is 0, as the child. An `int status` is printed as the number that a status is.
pub mod Waiting
use operating_systems_and_ne.Base.{ℕ, zero, suc, ◌*◌, ◌+◌, Option, none, some, List, [], ◌∷◌}
use operating_systems_and_ne.Os.{
  exit_failure, exit_success, Status, exited, signaled, stopped, waits, M, pure, exit, ◌>>=◌, ◌>>◌,
  perror, printf,
}
use operating_systems_and_ne.Os.Process.{fork, wait, number_call}

-- The number that stands for a status on Linux.
abbrev pub encoded : Status → ℕ
encoded (exited code) = code * 256
encoded (signaled signal) = signal
encoded (stopped signal) = signal * 256 + 127

-- `getpid()` and `getppid()` do not fail.
abbrev pub number_of : Option ℕ → M ℕ
number_of none = waits
number_of (some pid) = pure pid

abbrev pub getpid : M ℕ
getpid = number_call >>= number_of

abbrev pub getppid : M ℕ
getppid = number_call >>= number_of

abbrev pub second_wait : Option (ℕ × Status) → M ℕ
second_wait none = do perror "wait"; exit exit_failure
second_wait (some child) = pure 0

-- The result of the first `wait` is printed, a failure as the process -1 and the status 0.
abbrev pub print_finished : Option (ℕ × Status) → M (Unit {0})
print_finished none = printf "process -1 finished with exit code: %d\n" [] (0 ∷ [])
print_finished (some (pid, status)) =
    printf "process %d finished with exit code: %d\n" [] (pid ∷ encoded status ∷ [])

abbrev pub forked : Option ℕ → M ℕ
forked none = do perror "fork"; exit exit_failure
forked (some (suc pid)) = do
  printf "child pid: %d\n" [] (suc pid ∷ [])
  first ← wait
  print_finished first
  second ← wait
  second_wait second
forked (some zero) = do
  pid ← getpid
  printf "child says this pid: %d\n" [] (pid ∷ [])
  parent ← getppid
  printf "child says this parent pid: %d\n" [] (parent ∷ [])
  exit exit_success

pub main : M ℕ
main = do pid ← getpid; printf "parent pid: %d\n" [] (pid ∷ []); child ← fork; forked child
