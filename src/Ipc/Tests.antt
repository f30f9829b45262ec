-- ===== src/Ipc/Tests.antt =====
-- Runs of the programs in 06_ipc_src, and their theorems at these runs.
use operating_systems_and_ne.Base.{
  ℕ, suc, ◌+◌, ◌%◌, ◌^◌, ◌<◌, ◌≡◌, ◌↔◌, true, List, [], ◌∷◌, some, arith,
}
use operating_systems_and_ne.Os.{
  Answer, Event, Status, signaled, gives, pairs, reports, exited, returns, exit_success, printed,
}
use operating_systems_and_ne.Base.Int.{pos}
use operating_systems_and_ne.Ipc.Kill.{start_and_kill}
use operating_systems_and_ne.Ipc.Kill.Endings.{Ends, Succeeds, kill_lem}
use operating_systems_and_ne.Ipc.CountPrimes.{Worker, is_prime, count_primes, started}
use operating_systems_and_ne.Ipc.CountPrimes.Prime.{IsPrime, is_prime_lem}
use operating_systems_and_ne.Ipc.CountPrimes.Totals.{all_sent, total_lem}
use operating_systems_and_ne.Ipc.CountPrimes.Deliveries.{Reading, Ending, Delivery}
use operating_systems_and_ne.Ipc.CountPrimes.Failures.{
  workers, deliveries, all_answers, all_events, counted, failures, failures_lem,
}
use operating_systems_and_ne.Ipc.CountFiles.{count_files, count_files_fifo}
use operating_systems_and_ne.Ipc.CountFiles.Fifo.{Joined, count_files_fifo_lem}
use operating_systems_and_ne.Ipc.CountFiles.Plumbing.{Piped, count_files_lem}

abbrev numbers : List ℕ
numbers = 2 ∷ 9 ∷ 7 ∷ 1 ∷ 11 ∷ []

abbrev first : Worker
first = record { pid = 10; rfd = 3 }

abbrev others : List Worker
others = record { pid = 11; rfd = 4 } ∷ []

is_prime_lem_example : (is_prime 97 ≡ true) ↔ IsPrime 97
is_prime_lem_example = is_prime_lem 97

total_lem_example :
    (log : List Event) × (started (some (first ∷ others)) (record {
      answers = all_sent numbers 2 (first ∷ others) 0 (gives 0 ∷ []);
      errno = 0;
      log = [];
    })
      ≡ returns exit_success (record {
        answers = [];
        errno = 0;
        log = printed "Total primes: %lu\n" [] (count_primes numbers ∷ []) ∷ log;
      }))
total_lem_example = total_lem numbers first others 0 [] (omega arith)

abbrev both_fine : List Answer
both_fine = pairs 3 4 ∷ gives 20 ∷ gives 21 ∷ reports 20 (exited 0) ∷ reports 21 (exited 0) ∷ []

count_files_lem_example :
    Piped [] (count_files (record { answers = both_fine; errno = 0; log = [] }))
count_files_lem_example = count_files_lem both_fine 0 []

abbrev fifo_fine : List Answer
fifo_fine =
    gives 0 ∷ gives 20 ∷ gives 21 ∷ reports 20 (exited 0) ∷ reports 21 (exited 0) ∷ gives 0 ∷ []

count_files_fifo_lem_example :
    Joined [] (count_files_fifo (record { answers = fifo_fine; errno = 0; log = [] }))
count_files_fifo_lem_example = count_files_fifo_lem fifo_fine 0 []

-- The child still runs after a second, and SIGINT ends it.
abbrev hanging : List Answer
hanging = gives 12 ∷ gives 0 ∷ gives 0 ∷ reports 12 (signaled 2) ∷ []

kill_lem_example :
    Ends (pos 1) [] (start_and_kill (pos 1) (record { answers = hanging; errno = 0; log = [] }))
    × ((p q : ℕ) (status : Status) → Succeeds (pos 1) (gives (suc p) ∷ reports q status ∷ hanging))
    × ((p k q : ℕ) (status : Status)
        → Succeeds (pos 1) (gives (suc p) ∷ gives 0 ∷ gives k ∷ reports q status ∷ hanging))
kill_lem_example = kill_lem (pos 1) hanging 0 []

-- The first worker sends 4, a signal ends the second one after two bytes, and the third one, which
-- sends 1, cannot be waited for.
abbrev two_fail : List (Worker × Delivery)
two_fail =
    (first, record { reading = Reading.sends 4; ending = Ending.ended (exited 0) })
    ∷ (
      record { pid = 11; rfd = 4 },
      record { reading = Reading.cut_off (3 ∷ 0 ∷ []); ending = Ending.ended (signaled 9) },
    )
    ∷ (record { pid = 12; rfd = 5 }, record { reading = Reading.sends 1; ending = Ending.lost 10 })
    ∷ []

failures_lem_example :
    (total : ℕ) × (x : ℕ) × (started
        (some (workers two_fail))
        (record { answers = all_answers two_fail (gives 0 ∷ []); errno = 0; log = [] })
      ≡ returns exit_success (record {
        answers = [];
        errno = x;
        log = printed "Total primes: %lu\n" [] (total ∷ []) ∷ all_events two_fail [];
      }))
    × (total < 2 ^ 64)
    × ((total + failures (deliveries two_fail)) % 2 ^ 64 ≡ counted (deliveries two_fail) % 2 ^ 64)
failures_lem_example = failures_lem two_fail 0 [] (omega arith, (omega arith, (omega arith, tt)))
