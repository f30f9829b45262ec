-- ===== src/Multithreading/Tickets/Main/Tests.antt =====
-- A run of mutex.c as a whole, and the theorem on it at this run.
use operating_systems_and_ne.Base.{ℕ, ◌+◌, ◌*◌, ◌≤◌, ◌≡◌, refl, true, some, List, [], ◌∷◌, ◌++◌}
use operating_systems_and_ne.Base.Int.{pos, ◌-ℤ◌}
use operating_systems_and_ne.Multithreading.Errors.{exit_on_error, exit_success}
use operating_systems_and_ne.Multithreading.Main.{
  Process, Turn, Run, is_running, call, process_step, begin,
}
use operating_systems_and_ne.Multithreading.Main.Schedules.{
  after, Run-after, main_turns, thread_turns,
}
use operating_systems_and_ne.Multithreading.Tickets.{move, step}
use operating_systems_and_ne.Multithreading.Tickets.Main.{
  threads, mutex_process, IsBlocked, mutex_main_lem,
}

-- The threads take turns in an order of their own; `main` ends when they have.
abbrev sale : List (Turn threads)
sale =
    main_turns _ 6
    ++ (thread_turns _ 3 tt 16
        ++ (thread_turns _ 1 tt 16
            ++ (thread_turns _ 0 tt 16
                ++ (thread_turns _ 2 tt 16 ++ (thread_turns _ 4 tt 16 ++ main_turns _ 8)))))

abbrev sold : Process threads
sold = after _ sale (mutex_process (pos 2))

abbrev sale_steps : ℕ
sale_steps = (Run-after _ sale {s = mutex_process (pos 2)} begin).0

abbrev sale_run : Run _ (mutex_process (pos 2)) sale_steps sold
sale_run = (Run-after _ sale begin).1

sold-success : (sold.ended ≡ some exit_success) × (sold.output ≡ pos 0 ∷ [])
unfolding process_step call exit_on_error step move ◌-ℤ◌
sold-success = (refl, refl)

mutex_main_lem_example :
    (sale_steps ≤ 16 * 2 + 49)
    × (is_running threads sold ≡ true → ¬ IsBlocked sold)
    × (sold.ended ≡ some exit_success → sold.output ≡ pos 0 ∷ [])
mutex_main_lem_example = mutex_main_lem 2 {s = sold} sale_run
