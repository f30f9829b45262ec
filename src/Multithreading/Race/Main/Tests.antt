-- ===== src/Multithreading/Race/Main/Tests.antt =====
-- A run of race.c as a whole that sells a ticket too many, and the theorem on it at this run.
use operating_systems_and_ne.Base.{◌≡◌, refl, some, List, [], ◌∷◌, ◌++◌}
use operating_systems_and_ne.Base.Int.{pos, negsuc, ◌-ℤ◌, ◌≤ℤ◌}
use operating_systems_and_ne.Multithreading.Errors.{exit_on_error, exit_success}
use operating_systems_and_ne.Multithreading.Main.{Process, Turn, call, process_step, begin}
use operating_systems_and_ne.Multithreading.Main.Schedules.{
  after, Run-after, main_turns, thread_turns,
}
use operating_systems_and_ne.Multithreading.Race.{move, step}
use operating_systems_and_ne.Multithreading.Race.Outcomes.{AllReturned}
use operating_systems_and_ne.Multithreading.Race.Main.{threads, race_process, race_main_lem}

-- Thread 0 and thread 1 both see the last ticket.
abbrev sale : List (Turn threads)
sale =
    main_turns _ 5
    ++ (thread_turns _ 0 tt 1
        ++ (thread_turns _ 1 tt 4
            ++ (thread_turns _ 0 tt 3
                ++ (thread_turns _ 2 tt 1
                    ++ (thread_turns _ 3 tt 1 ++ (thread_turns _ 4 tt 1 ++ main_turns _ 7))))))

abbrev sold : Process threads
sold = after _ sale (race_process (pos 1))

sold-success : (sold.ended ≡ some exit_success) × (sold.output ≡ negsuc 0 ∷ [])
unfolding process_step call exit_on_error step move ◌-ℤ◌
sold-success = (refl, refl)

race_main_lem_example :
    AllReturned sold.threads
    × (sold.output ≡ sold.threads.ntickets ∷ [])
    × (sold.threads.ntickets ≤ℤ pos 0)
unfolding process_step call exit_on_error step move ◌-ℤ◌
race_main_lem_example =
    race_main_lem 1 {s = sold} (Run-after _ sale {s = race_process (pos 1)} begin).1 refl
