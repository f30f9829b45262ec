-- ===== src/Multithreading/Tickets/Main.antt =====
-- `main` of mutex.c, beside the threads. `atoi` is the C library's.
mod Tests
use operating_systems_and_ne.Base.{
  ℕ, ◌+◌, ◌*◌, ◌≤◌, ◌<◌, ◌≡◌, refl, Bool, true, false, none, some, List, [], ◌∷◌, ◌++◌, arith, ap,
  ◌∙◌,
}
use operating_systems_and_ne.Base.Int.{ℤ, pos}
use operating_systems_and_ne.Os.{Bytes}
use operating_systems_and_ne.Multithreading.Errors.{exit_success, exit_failure}
use operating_systems_and_ne.Multithreading.Main.{
  Call, for_each, Threads, Process, Turn, launch, is_running, process_step, Run,
}
use operating_systems_and_ne.Multithreading.Main.Calls.{calls_left}
use operating_systems_and_ne.Multithreading.Main.Order.{Laws, Sound, Run-Sound, success_returned}
use operating_systems_and_ne.Multithreading.Main.Progress.{
  counted, main_waits, main_blocked, thread_blocked,
}
use operating_systems_and_ne.Multithreading.Main.Printing.{printed_once}
use operating_systems_and_ne.Multithreading.Tickets.{Sale, Pc, nthreads, move, step, start}
use operating_systems_and_ne.Multithreading.Tickets.Invariant.{is_sale, Reach, begin, turn}
use operating_systems_and_ne.Multithreading.Tickets.Progress.{
  IsStuck, stuck-sold_out, tickets_run_bound,
}

abbrev pub has_returned : Pc → Bool
has_returned Pc.returned = true
has_returned q = false

-- Nothing is left to choose at a step of a thread, and no thread exits.
abbrev pub threads : Threads
threads = record {
  State = Sale;
  Choice = Unit {0};
  step = λ s w c. step s w;
  returned = λ s w. has_returned (s.pc w);
  exited = λ s. none;
  shown = λ s. s.ntickets;
}

abbrev pub mutex_main : List Call
mutex_main =
    Call.mutex_init 0
    ∷ (for_each Call.thread_create nthreads 0
        ++ (for_each Call.thread_join nthreads 0 ++ (Call.mutex_destroy 0 ∷ Call.print ∷ [])))

abbrev pub mutex_process : ℤ → Process threads
mutex_process number = launch threads (start number) mutex_main

-- `main` with its arguments: without a number it prints its usage and returns EXIT_FAILURE.
abbrev pub main : (Bytes → ℤ) → List Bytes → Process threads
main atoi (name ∷ number ∷ more) = mutex_process (atoi number)
main atoi argv = record (launch threads (start (pos 0)) []) { ended = some exit_failure }

tickets-Laws : Laws threads nthreads
unfolding step move
tickets-Laws = record {
  rests = λ s w c e. ground (arith, e);
  stays = λ s t v w c e h. ground (arith, e);
  few = λ s t w c h. ground arith;
}

abbrev Reached : ℕ → ℕ → Sale → Type 0
Reached number n s = (k : ℕ) × Reach (pos number) n k s

mutex-Sound :
    (number : ℤ) (k : ℕ) (s : Process threads)
    → Run threads (mutex_process number) k s
    → Sound threads nthreads s
mutex-Sound number k s =
    Run-Sound tickets-Laws (ground arith) (λ w e. ground arith) (λ w l. ground arith)

-- Neither `main`, if its call succeeds, nor a thread can make a step.
abbrev pub IsBlocked : Process threads → Type 0
IsBlocked s =
    (process_step threads s (Turn.of_main 0) ≡ none)
    × ((w : ℕ) → process_step threads s (Turn.of_thread w tt) ≡ none)

-- mutex.c as a whole, from a number that is not negative: in every interleaving of `main` and the
-- threads it makes at most 16 steps for each ticket and 49 more; as long as it is not over, some call
-- that succeeds can be made; and if `main` returns EXIT_SUCCESS, it has printed that 0 tickets are left.
pub mutex_main_lem :
    (number : ℕ) {k : ℕ} {s : Process threads}
    → Run threads (mutex_process (pos number)) k s
    → (k ≤ 16 * number + 49)
      × (is_running threads s ≡ true → ¬ IsBlocked s)
      × (s.ended ≡ some exit_success → s.output ≡ pos 0 ∷ [])
mutex_main_lem number {k} {s} r = (bounded, moves, prints_zero)
  where
    reached : (n : ℕ) × Reached number n s.threads × (k + calls_left s ≤ n + 14)
    reached =
        counted {P = threads} (Reached number) (0, begin)
          (λ n s t w c (j, q) h. (j + is_sale (s.pc w), turn w q h)) r

    sound : Sound threads nthreads s
    sound = mutex-Sound (pos number) k s r

    bounded : k ≤ 16 * number + 49
    bounded = omega (arith, tickets_run_bound reached.1.1, reached.2)

    -- The state of the threads, when none of them has a step.
    sold_out :
        IsStuck s.threads
        → (s.threads.ntickets ≡ pos 0) × ((w : ℕ) → w < nthreads → s.threads.pc w ≡ Pc.returned)
    sold_out stuck = let ended = stuck-sold_out reached.1.1 stuck in (ended.1, ended.0)

    moves : is_running threads s ≡ true → ¬ IsBlocked s
    moves running (main_waits_now, waiting) =
        let (w, l, still, exist) = main_waits sound (main_blocked s running main_waits_now) in
        let ended = sold_out (λ v m. thread_blocked s running v tt (exist v m) (waiting v)) in
        absurd (ground (arith, still, ended.1 w l))

    prints_zero : s.ended ≡ some exit_success → s.output ≡ pos 0 ∷ []
    prints_zero e =
        printed_once tickets-Laws (mutex-Sound (pos number)) refl (ground arith) r e
        ∙ ap (λ z. z ∷ [])
            (sold_out (λ w l. tickets-Laws.rests s.threads w tt (success_returned sound e w l))).0
