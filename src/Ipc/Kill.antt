-- ===== src/Ipc/Kill.antt =====
-- kill.c: starts a child, gives it a second, and sends it SIGINT if it still runs. After `fork` a run
-- goes on as the parent or, where the answer is 0, as the child.
pub mod Endings
use operating_systems_and_ne.Base.{
  ℕ, zero, suc, Bool, true, false, Option, none, some, List, [], ◌∷◌, if◌then◌else◌,
}
use operating_systems_and_ne.Base.Int.{ℤ, pos}
use operating_systems_and_ne.Os.{
  exit_success, exit_failure, Bytes, Status, exited, signaled, stopped, Answer, fails, gives,
  reports, was_reaped, was_signaled, slept, returns, waits, M, pure, exit, ◌>>=◌, ◌>>◌, note, emit,
  ask, failing, perror, printf,
}
use operating_systems_and_ne.Os.Process.{fork, fprintf_stderr, done_answer}

abbrev pub sigint : ℕ
sigint = 2

-- What `waitpid` tells of a child with WNOHANG, where it does not fail: its 0, or how the child ended.
pub data Poll : Type 0 where
  still_running : Poll
  ended : Status → Poll

abbrev pub poll_answer : ℕ → Answer → M (Option Poll)
poll_answer pid (fails e) w = failing e w
poll_answer pid (gives zero) w = returns (some Poll.still_running) w
poll_answer pid (reports p status) w =
    returns (some (Poll.ended status)) (note (was_reaped pid status) w)
poll_answer pid a w = waits w

-- `waitpid(pid, &status, WNOHANG)`
unfoldable pub waitpid_nohang : ℕ → M (Option Poll)
waitpid_nohang pid = ask (poll_answer pid)

-- `kill(pid, signal)`
unfoldable pub kill : ℕ → ℕ → M (Option (Unit {0}))
kill pid signal = ask (done_answer (was_signaled pid signal))

abbrev pub sleep : ℕ → M (Unit {0})
sleep seconds = emit (slept seconds)

-- How the child ended, in words.
abbrev pub print_status : Status → M (Unit {0})
print_status (exited code) =
    printf "Child process exited normally with exit code: %d\n" [] (code ∷ [])
print_status (signaled signal) =
    printf "Child process was terminated by signal number: %d\n" [] (signal ∷ [])
print_status (stopped signal) = printf "Child process was finished by unknown cause\n" [] []

abbrev pub report : Status → M ℕ
report status = do print_status status; pure exit_success

abbrev pub second_poll : Option Poll → M ℕ
second_poll none = do perror "waitpid"; pure exit_failure
second_poll (some Poll.still_running) = do
  fprintf_stderr "child process ignored SIGINT\n" [] []
  pure exit_failure
second_poll (some (Poll.ended status)) = report status

abbrev pub killed : ℕ → Option (Unit {0}) → M ℕ
killed pid none = do perror "kill"; pure exit_failure
killed pid (some _) = do sleep 1; rv ← waitpid_nohang pid; second_poll rv

abbrev pub first_poll : ℕ → Option Poll → M ℕ
first_poll pid none = do perror "waitpid"; pure exit_failure
first_poll pid (some Poll.still_running) = do
  printf "Child process hangs. Sending SIGINT\n" [] []
  err ← kill pid sigint
  killed pid err
first_poll pid (some (Poll.ended status)) = report status

abbrev pub is_one : ℤ → Bool
is_one (pos (suc zero)) = true
is_one mode = false

abbrev pub child : ℤ → M ℕ
child mode = do if is_one mode then sleep 5 else pure tt; exit exit_success

abbrev pub forked : ℤ → Option ℕ → M ℕ
forked mode (some zero) = child mode
forked mode none = do perror "fork"; pure exit_failure
forked mode (some (suc pid)) = do
  printf "Child proess with pid %d started\n" [] (suc pid ∷ [])
  sleep 1
  rv ← waitpid_nohang (suc pid)
  first_poll (suc pid) rv

pub start_and_kill : ℤ → M ℕ
start_and_kill mode = do pid ← fork; forked mode pid

-- `atoi` is the C library's.
pub main : (Bytes → ℤ) → List Bytes → M ℕ
main atoi (name ∷ mode ∷ more) = start_and_kill (atoi mode)
main atoi argv = do printf "Usage: %s mode\n" argv []; pure exit_failure
