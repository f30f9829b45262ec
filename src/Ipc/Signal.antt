-- ===== src/Ipc/Signal.antt =====
-- signal.c: sleeps until SIGINT. A test of `signal_status` is answered with the last signal that the
-- handler was called with, or 0.
pub mod Waiting
use operating_systems_and_ne.Base.{
  ℕ, zero, suc, Bool, true, false, Option, none, some, List, [], ◌∷◌, ◌==◌,
}
use operating_systems_and_ne.Os.{
  exit_success, exit_failure, Answer, gives, slept, returns, waits, no_fuel, M, pure, ◌>>=◌, ◌>>◌,
  emit, ask, with_fuel, printf,
}
use operating_systems_and_ne.Os.Process.{fprintf_stderr, number_call}
use operating_systems_and_ne.Ipc.Kill.{sigint, sleep}

abbrev pub status_answer : Answer → M ℕ
status_answer (gives signal) w = returns signal w
status_answer a w = waits w

-- What `signal_status` holds; only `signal_handler` writes it.
unfoldable pub signal_status : M ℕ
signal_status = ask status_answer

-- `while (signal_status != SIGINT)`
abbrev pub while_not : M ℕ → Bool → M ℕ
while_not loop true = do printf "Gracefully finishing\n" [] []; pure exit_success
while_not loop false = do sleep 1; loop

pub wait_loop : ℕ → M ℕ
wait_loop zero = no_fuel
wait_loop (suc fuel) = signal_status >>= λ status. while_not (wait_loop fuel) (status == sigint)

abbrev pub handler_set : Option ℕ → M ℕ
handler_set none = do fprintf_stderr "signal error" [] []; pure exit_failure
handler_set (some _) = with_fuel wait_loop

pub main : M ℕ
main = do err ← number_call; handler_set err
