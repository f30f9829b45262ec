-- ===== src/Multithreading/Race/Main.antt =====
-- `main` of race.c, beside the threads. `atoi` is the C library's.
mod Tests
use operating_systems_and_ne.Base.{
  ℕ, ◌<◌, ◌≡◌, refl, Bool, true, false, none, some, List, [], ◌∷◌, ◌++◌, arith,
}
use operating_systems_and_ne.Base.Int.{ℤ, pos, ◌≤ℤ◌}
use operating_systems_and_ne.Os.{Bytes}
use operating_systems_and_ne.Multithreading.Errors.{exit_success, exit_failure}
use operating_systems_and_ne.Multithreading.Main.{Call, for_each, Threads, Process, launch, Run}
use operating_systems_and_ne.Multithreading.Main.Order.{Laws, Sound, Run-Sound, success_returned}
use operating_systems_and_ne.Multithreading.Main.Progress.{lifted}
use operating_systems_and_ne.Multithreading.Main.Printing.{printed_once}
use operating_systems_and_ne.Multithreading.Race.{Sale, Pc, nthreads, move, step, start}
use operating_systems_and_ne.Multithreading.Race.Outcomes.{
  Reach, begin, turn, AllReturned, outcome_bounds,
}

abbrev pub has_returned : Pc → Bool
has_returned Pc.returned = true
has_returned q = false

-- Nothing is left to choose at a step of a thread, and no thread exits.
abbrev pub threads : Threads
threads = record {
  State = Sale;
  Choice = Unit {0};
  step = λ s w c. step s w;
  returned = λ s w. has_returned (s.pc w);
  exited = λ s. none;
  shown = λ s. s.ntickets;
}

abbrev pub race_main : List Call
race_main =
    for_each Call.thread_create nthreads 0
    ++ (for_each Call.thread_join nthreads 0 ++ (Call.print ∷ []))

abbrev pub race_process : ℤ → Process threads
race_process number = launch threads (start number) race_main

-- `main` with its arguments: without a number it prints its usage and returns EXIT_FAILURE.
abbrev pub main : (Bytes → ℤ) → List Bytes → Process threads
main atoi (name ∷ number ∷ more) = race_process (atoi number)
main atoi argv = record (launch threads (start (pos 0)) []) { ended = some exit_failure }

race-Laws : Laws threads nthreads
unfolding step move
race-Laws = record {
  rests = λ s w c e. ground (arith, e);
  stays = λ s t v w c e h. ground (arith, e);
  few = λ s t w c h. ground arith;
}

race-Sound :
    (number : ℤ) (k : ℕ) (s : Process threads)
    → Run threads (race_process number) k s
    → Sound threads nthreads s
race-Sound number k s =
    Run-Sound race-Laws (ground arith) (λ w e. ground arith) (λ w l. ground arith)

all_returned : (s : Sale) → ((w : ℕ) → w < nthreads → has_returned (s.pc w) ≡ true) → AllReturned s
all_returned s h w l = ground (arith, h w l)

-- race.c as a whole, from a number that is not negative, in every interleaving of `main` and the
-- threads: if `main` returns EXIT_SUCCESS, all threads have returned, and `main` has printed once, a
-- number that is not positive.
pub race_main_lem :
    (number : ℕ) {k : ℕ} {s : Process threads}
    → Run threads (race_process (pos number)) k s
    → s.ended ≡ some exit_success
    → AllReturned s.threads × (s.output ≡ s.threads.ntickets ∷ []) × (s.threads.ntickets ≤ℤ pos 0)
race_main_lem number {k} {s} r e = (
  over,
  printed_once race-Laws (race-Sound (pos number)) refl (ground arith) r e,
  (outcome_bounds reached).1 over,
)
  where
    over : AllReturned s.threads
    over = all_returned s.threads (success_returned (race-Sound (pos number) k s r) e)

    reached : Reach (pos number) s.threads
    reached = lifted (Reach (pos number)) begin (λ s t w c q h. turn w q h) r
