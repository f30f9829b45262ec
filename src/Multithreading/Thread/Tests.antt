-- ===== src/Multithreading/Thread/Tests.antt =====
-- A run of thread.c.
use operating_systems_and_ne.Base.{◌≡◌, refl, some, List, [], ◌∷◌, ◌++◌}
use operating_systems_and_ne.Base.Int.{pos}
use operating_systems_and_ne.Multithreading.Errors.{exit_on_error, exit_success}
use operating_systems_and_ne.Multithreading.Main.{Process, Turn, call, process_step}
use operating_systems_and_ne.Multithreading.Main.Schedules.{after, main_turns, thread_turns}
use operating_systems_and_ne.Multithreading.Thread.{move, step}
use operating_systems_and_ne.Multithreading.Thread.Main.{threads, thread_process}

abbrev whole_run : List (Turn threads)
whole_run = main_turns _ 2 ++ (thread_turns _ 0 tt 2 ++ main_turns _ 3)

abbrev over : Process threads
over = after _ whole_run thread_process

over-success : (over.ended ≡ some exit_success) × (over.output ≡ pos 42 ∷ [])
unfolding process_step call exit_on_error step move
over-success = (refl, refl)
