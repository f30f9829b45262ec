-- ===== src/Multithreading/Dining/Main.antt =====
-- `main` of the dining_philosophers programs, beside the threads, which never return.
mod Tests
use operating_systems_and_ne.Base.{
  ℕ, ◌<◌, ◌≡◌, ◌≢◌, true, false, some, List, [], ◌∷◌, ◌++◌, arith, Bool-cases, inl, inr,
}
use operating_systems_and_ne.Base.Int.{pos}
use operating_systems_and_ne.Multithreading.Errors.{exit_success}
use operating_systems_and_ne.Multithreading.Main.{Call, for_each, Threads, Process, launch, Run}
use operating_systems_and_ne.Multithreading.Main.Calls.{Orderly, is_last, pending, creating}
use operating_systems_and_ne.Multithreading.Main.Order.{
  Laws, Sound, Run-Sound, settled, success_returned,
}
use operating_systems_and_ne.Multithreading.Main.Progress.{lifted}
use operating_systems_and_ne.Multithreading.Dining.{
  Program, Table, nphilosopher, nforks, step, start,
}
use operating_systems_and_ne.Multithreading.Dining.Invariant.{Reach, begin, turn}

-- The choice at a step of a philosopher is what its call returns.
abbrev pub threads : Program → Threads
threads v = record {
  State = Table;
  Choice = ℕ;
  step = step v;
  returned = λ s w. false;
  exited = λ s. s.exited;
  shown = λ s. pos 0;
}

-- `main` of dining_philosophers.c
abbrev pub plain_main : List Call
plain_main =
    for_each Call.mutex_init nforks 0
    ++ (for_each Call.thread_create nphilosopher 0
        ++ (for_each Call.thread_join nphilosopher 0 ++ for_each Call.mutex_destroy nforks 0))

-- `main` of dining_philosophers_sem.c
abbrev pub posix_sem_main : List Call
posix_sem_main =
    Call.sem_init
    ∷ (for_each Call.mutex_init nforks 0
        ++ (for_each Call.thread_create nphilosopher 0
            ++ (for_each Call.thread_join nphilosopher 0
                ++ (for_each Call.mutex_destroy nforks 0 ++ (Call.sem_destroy ∷ [])))))

-- `main` of dining_philosophers_sem_macosx.c
abbrev pub dispatch_sem_main : List Call
dispatch_sem_main =
    Call.dispatch_semaphore_create
    ∷ (for_each Call.mutex_init nforks 0
        ++ (for_each Call.thread_create nphilosopher 0
            ++ (for_each Call.thread_join nphilosopher 0 ++ for_each Call.mutex_destroy nforks 0)))

abbrev pub calls : Program → List Call
calls Program.plain = plain_main
calls Program.posix_sem = posix_sem_main
calls Program.dispatch_sem = dispatch_sem_main

abbrev pub dining_process : (v : Program) → Process (threads v)
dining_process v = launch (threads v) (start v) (calls v)

calls-Orderly : (v : Program) → Orderly (calls v)
calls-Orderly Program.plain = ground arith
calls-Orderly Program.posix_sem = ground arith
calls-Orderly Program.dispatch_sem = ground arith

calls_low : (v : Program) (w : ℕ) → pending w (calls v) ≡ true → w < nphilosopher
calls_low Program.plain w e = ground arith
calls_low Program.posix_sem w e = ground arith
calls_low Program.dispatch_sem w e = ground arith

calls_complete :
    (v : Program) (w : ℕ)
    → w < nphilosopher
    → (creating w (calls v) ≡ true) × (pending w (calls v) ≡ true)
calls_complete Program.plain w l = ground arith
calls_complete Program.posix_sem w l = ground arith
calls_complete Program.dispatch_sem w l = ground arith

dining-Laws : (v : Program) → Laws (threads v) nphilosopher
unfolding step
dining-Laws v = record {
  rests = λ s w c e. absurd (cc);
  stays = λ s t j w c e h. absurd (cc);
  few = λ s t w c h. ground arith;
}

-- The threads of a process are at a table that the threads alone can reach.
pub threads-Reach :
    (v : Program) {k : ℕ} {s : Process (threads v)}
    → Run (threads v) (dining_process v) k s
    → Reach v s.threads
threads-Reach v = lifted (Reach v) begin (λ s t w c r h. turn w c r h)

-- `main` of the dining_philosophers programs, in every interleaving with the philosophers and whatever
-- the calls return: since no philosopher ever returns, `main` never returns EXIT_SUCCESS, and it never
-- comes to destroy a fork or the semaphore. The forks and philosophers are in a state that the
-- philosophers alone can reach.
pub dining_main_lem :
    (v : Program) {k : ℕ} {s : Process (threads v)}
    → Run (threads v) (dining_process v) k s
    → (s.ended ≢ some exit_success)
      × ((c : Call) (rest : List Call) → s.todo ≡ c ∷ rest → is_last c ≡ false)
      × Reach v s.threads
dining_main_lem v {s = s} r = (
  λ e. cc (success_returned sound e 0 (omega arith)),
  λ c rest e. elim (Bool-cases (is_last c)) [
    | inl last ↦ cc (settled sound e last 0 (omega arith))
    | inr other ↦ other
  ],
  threads-Reach v r,
)
  where
    sound : Sound (threads v) nphilosopher s
    sound = Run-Sound (dining-Laws v) (calls-Orderly v) (calls_low v) (calls_complete v) r
