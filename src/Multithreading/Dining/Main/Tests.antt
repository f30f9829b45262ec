-- ===== src/Multithreading/Dining/Main/Tests.antt =====
-- A run of dining_philosophers_sem.c as a whole, and the theorem on `main` at this run.
use operating_systems_and_ne.Base.{◌≡◌, ◌≢◌, refl, false, some, List, ◌∷◌, ◌++◌}
use operating_systems_and_ne.Multithreading.Errors.{exit_on_error, exit_success}
use operating_systems_and_ne.Multithreading.Main.{Call, Process, Turn, call, process_step, begin}
use operating_systems_and_ne.Multithreading.Main.Calls.{is_last}
use operating_systems_and_ne.Multithreading.Main.Schedules.{
  after, Run-after, main_turns, thread_turns,
}
use operating_systems_and_ne.Multithreading.Dining.{Program, move, step}
use operating_systems_and_ne.Multithreading.Dining.Invariant.{Reach}
use operating_systems_and_ne.Multithreading.Dining.Main.{threads, dining_process, dining_main_lem}

-- `main` creates all and waits at the first join; philosopher 2 eats once, philosopher 3 takes a fork.
abbrev dinner : List (Turn (threads Program.posix_sem))
dinner = main_turns _ 11 ++ (thread_turns _ 2 0 7 ++ (thread_turns _ 3 0 2 ++ main_turns _ 1))

abbrev at_table : Process (threads Program.posix_sem)
at_table = after _ dinner (dining_process Program.posix_sem)

at_table-todo : (rest : List Call) × (at_table.todo ≡ Call.thread_join 0 ∷ rest)
unfolding process_step call exit_on_error step move
at_table-todo = (_, refl)

dining_main_lem_example :
    (at_table.ended ≢ some exit_success)
    × ((c : Call) (rest : List Call) → at_table.todo ≡ c ∷ rest → is_last c ≡ false)
    × Reach Program.posix_sem at_table.threads
dining_main_lem_example =
    dining_main_lem Program.posix_sem {s = at_table} (Run-after _ dinner begin).1
