-- ===== src/Multithreading/Bank/Main/Tests.antt =====
-- A run of ordered_lock.c as a whole, and the theorems on `main` of the bank programs at this run.
use operating_systems_and_ne.Base.{ℕ, ◌≤◌, ◌≡◌, refl, true, some, List, ◌∷◌, ◌++◌}
use operating_systems_and_ne.Base.Int.{◌+ℤ◌, ◌-ℤ◌}
use operating_systems_and_ne.Multithreading.Errors.{exit_on_error, exit_success}
use operating_systems_and_ne.Multithreading.Main.{
  Call, Process, Turn, is_running, call, process_step, Run, begin,
}
use operating_systems_and_ne.Multithreading.Main.Schedules.{
  after, Run-after, main_turns, thread_turns,
}
use operating_systems_and_ne.Multithreading.Bank.{Program, Choice, move, transact, step, lock_order}
use operating_systems_and_ne.Multithreading.Bank.Main.{
  threads, bank_process, IsOver, IsBlocked, bank_main_lem, ordered_main_lem,
}

abbrev transfer_two : Choice
transfer_two = record { err = 0; rand_amount = 2; rand_from = 1 }

-- `main` creates both mutexes and both threads, then the threads run one after the other, and then
-- `main` ends.
abbrev whole_run : List (Turn (threads Program.ordered_lock))
whole_run =
    main_turns _ 4
    ++ (thread_turns _ 1 transfer_two 901 ++ (thread_turns _ 0 transfer_two 901 ++ main_turns _ 5))

abbrev ended : Process (threads Program.ordered_lock)
ended = after _ whole_run (bank_process Program.ordered_lock)

ended_success : ended.ended ≡ some exit_success
unfolding process_step call exit_on_error step move transact lock_order ◌+ℤ◌ ◌-ℤ◌
ended_success = refl

abbrev ended_steps : ℕ
ended_steps = (Run-after _ whole_run {s = bank_process Program.ordered_lock} begin).0

abbrev ended_run : Run _ (bank_process Program.ordered_lock) ended_steps ended
ended_run = (Run-after _ whole_run begin).1

bank_main_lem_example :
    ((d : ℕ) (rest : List Call) → ended.todo ≡ Call.mutex_destroy d ∷ rest → IsOver ended.threads)
    × (ended.ended ≡ some exit_success → IsOver ended.threads)
bank_main_lem_example = bank_main_lem Program.ordered_lock {s = ended} ended_run

ordered_main_lem_example :
    (ended_steps ≤ 1811) × (is_running _ ended ≡ true → ¬ IsBlocked Program.ordered_lock ended)
ordered_main_lem_example = ordered_main_lem {s = ended} ended_run
