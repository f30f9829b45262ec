-- ===== src/Multithreading/Bank/Main.antt =====
-- `main` of deadlock.c and ordered_lock.c, beside the threads.
mod Tests
use operating_systems_and_ne.Base.{
  ℕ, suc, ◌≤◌, ◌<◌, ◌≡◌, refl, Bool, true, false, none, some, List, ◌∷◌, ◌++◌, arith, ◌*◌,
  Option-cases, inl, inr,
}
use operating_systems_and_ne.Base.Int.{pos}
use operating_systems_and_ne.Multithreading.Errors.{exit_on_error, exit_success}
use operating_systems_and_ne.Multithreading.Main.{
  Call, for_each, Threads, Process, Turn, launch, is_running, process_step, Run,
}
use operating_systems_and_ne.Multithreading.Main.Calls.{Orderly, pending, creating}
use operating_systems_and_ne.Multithreading.Main.Order.{
  Laws, Sound, Run-Sound, settled, success_returned,
}
use operating_systems_and_ne.Multithreading.Main.Progress.{
  lifted, counted, main_waits, main_blocked, thread_blocked,
}
use operating_systems_and_ne.Multithreading.Bank.{
  Program, Bank, Pc, Stage, Choice, nworkers, ndeposits, initial_balance, sum_balances, transact,
  move, step, start,
}
use operating_systems_and_ne.Multithreading.Bank.Invariant.{Inv}
use operating_systems_and_ne.Multithreading.Bank.Reachable.{Reach, begin, turn, Reach-Inv}
use operating_systems_and_ne.Multithreading.Bank.Safety.{money_kept}
use operating_systems_and_ne.Multithreading.Bank.Termination.{bank_run_bound}
use operating_systems_and_ne.Multithreading.Bank.Progress.{
  IsStuck, AllReturned, ordered_stuck-AllReturned,
}

abbrev pub has_returned : Pc → Bool
has_returned Pc.returned = true
has_returned q = false

abbrev pub threads : Program → Threads
threads p = record {
  State = Bank;
  Choice = Choice;
  step = step p;
  returned = λ s w. has_returned (s.workers w).pc;
  exited = λ s. s.exited;
  shown = λ s. pos 0;
}

-- `main` of deadlock.c: `deposit_init`, `pthread_create`, `pthread_join` and `deposit_destroy`, each
-- in its loop.
abbrev pub deadlock_main : List Call
deadlock_main =
    for_each Call.mutex_init ndeposits 0
    ++ (for_each Call.thread_create nworkers 0
        ++ (for_each Call.thread_join nworkers 0 ++ for_each Call.mutex_destroy ndeposits 0))

-- `main` of ordered_lock.c
abbrev pub ordered_lock_main : List Call
ordered_lock_main =
    for_each Call.mutex_init ndeposits 0
    ++ (for_each Call.thread_create nworkers 0
        ++ (for_each Call.thread_join nworkers 0 ++ for_each Call.mutex_destroy ndeposits 0))

abbrev pub calls : Program → List Call
calls Program.deadlock = deadlock_main
calls Program.ordered_lock = ordered_lock_main

-- The process before the first call of `main`.
abbrev pub bank_process : (p : Program) → Process (threads p)
bank_process p = launch (threads p) start (calls p)

calls-Orderly : (p : Program) → Orderly (calls p)
calls-Orderly Program.deadlock = ground arith
calls-Orderly Program.ordered_lock = ground arith

calls_low : (p : Program) (w : ℕ) → pending w (calls p) ≡ true → w < nworkers
calls_low Program.deadlock w e = ground arith
calls_low Program.ordered_lock w e = ground arith

calls_complete :
    (p : Program) (w : ℕ)
    → w < nworkers
    → (creating w (calls p) ≡ true) × (pending w (calls p) ≡ true)
calls_complete Program.deadlock w l = ground arith
calls_complete Program.ordered_lock w l = ground arith

move-returned :
    (p : Program) (s t : Bank) (v w : ℕ) (c : Choice) (q : Pc)
    → (s.workers w).pc ≡ q
    → has_returned (s.workers v).pc ≡ true
    → move p s w c q ≡ some t
    → has_returned (t.workers v).pc ≡ true
unfolding move transact exit_on_error
move-returned p s t v w c Pc.loop_head e r h = ground (arith, r)
move-returned p s t v w c (Pc.exec_transaction Stage.locking_fst x) e r h = ground (arith, r)
move-returned p s t v w c (Pc.exec_transaction g x) e r h = ground (arith, r)
move-returned p s t v w c Pc.returned e r h = ground (arith, r)

bank-Laws : (p : Program) → Laws (threads p) nworkers
unfolding step move
bank-Laws p = record {
  rests = λ s w c e. ground (arith, e);
  stays = λ s t v w c e h.
      let moved : move p s w c (s.workers w).pc ≡ some t = ground arith in
      move-returned p s t v w c (s.workers w).pc refl e moved;
  few = λ s t w c h. ground arith;
}

abbrev Reached : Program → Bank → Type 0
Reached p s = (n : ℕ) × Reach p n s

-- The threads of a process are in a state that the threads alone can reach.
threads-Reached :
    (p : Program) {k : ℕ} {s : Process (threads p)}
    → Run (threads p) (bank_process p) k s
    → Reached p s.threads
threads-Reached p = lifted (Reached p) (0, begin) (λ s t w c (n, r) h. (suc n, turn w c r h))

bank-Sound :
    (p : Program) {k : ℕ} {s : Process (threads p)}
    → Run (threads p) (bank_process p) k s
    → Sound (threads p) nworkers s
bank-Sound p = Run-Sound (bank-Laws p) (calls-Orderly p) (calls_low p) (calls_complete p)

all_returned :
    (s : Bank) → ((w : ℕ) → w < nworkers → has_returned (s.workers w).pc ≡ true) → AllReturned s
all_returned s h w l = go (s.workers w).pc (h w l)
  where
    go : (q : Pc) → has_returned q ≡ true → q ≡ Pc.returned
    go Pc.returned e = refl
    go q e = cc

-- All is over: both threads have returned, nobody has a mutex, and no money is lost.
abbrev pub IsOver : Bank → Type 0
IsOver s =
    AllReturned s
    × ((d : ℕ) → (s.deposits d).mutex ≡ none)
    × (sum_balances s.deposits ndeposits ≡ pos (ndeposits * initial_balance))

over : {p : Program} {n : ℕ} {s : Bank} → Reach p n s → AllReturned s → IsOver s
over {p} {s = s} r all = (all, free, money_kept r (λ w l. ground (arith, all w l)))
  where
    inv : Inv p s
    inv = Reach-Inv r

    free : (d : ℕ) → (s.deposits d).mutex ≡ none
    free d = elim (Option-cases (s.deposits d).mutex) [
      | inl e ↦ e
      | inr (j, e) ↦ absurd (ground (arith, inv.owned d j e, all j))
    ]

-- `main` of deadlock.c and of ordered_lock.c, in every interleaving with the threads and whatever
-- the calls return: when it comes to destroy a mutex, and when it has returned EXIT_SUCCESS, both
-- threads have returned, no mutex is held and the balances add up to what the deposits started with.
pub bank_main_lem :
    (p : Program) {k : ℕ} {s : Process (threads p)}
    → Run (threads p) (bank_process p) k s
    → ((d : ℕ) (rest : List Call) → s.todo ≡ Call.mutex_destroy d ∷ rest → IsOver s.threads)
      × (s.ended ≡ some exit_success → IsOver s.threads)
bank_main_lem p {s = s} r =
    let reached = (threads-Reached p r).1 in
    let sound = bank-Sound p r in
    (
      λ d rest e. over reached (all_returned s.threads (settled sound e refl)),
      λ e. over reached (all_returned s.threads (success_returned sound e)),
    )

-- The turns in which the call that is made, if any, succeeds.
abbrev pub Succeeds : (p : Program) → Turn (threads p) → Type 0
Succeeds p (Turn.of_main err) = err ≡ 0
Succeeds p (Turn.of_thread w c) = c.err ≡ 0

-- No such turn can be made.
abbrev pub IsBlocked : (p : Program) → Process (threads p) → Type 0
IsBlocked p s = (u : Turn (threads p)) → Succeeds p u → process_step (threads p) s u ≡ none

-- ordered_lock.c ends, in every interleaving of `main` and the threads: it makes at most 1811 steps,
-- and as long as it is not over, `main` or a thread can make a call that succeeds.
pub ordered_main_lem :
    {k : ℕ} {s : Process (threads Program.ordered_lock)}
    → Run (threads Program.ordered_lock) (bank_process Program.ordered_lock) k s
    → (k ≤ 1811) × (is_running _ s ≡ true → ¬ IsBlocked Program.ordered_lock s)
ordered_main_lem {k} {s} r = (bounded, moves)
  where
    bounded : k ≤ 1811
    bounded =
        let (n, reached, few) =
          counted {P = threads Program.ordered_lock} (Reach Program.ordered_lock) begin
            (λ n s t w c q h. turn w c q h) r in
        omega (arith, bank_run_bound reached, few)

    moves : is_running _ s ≡ true → ¬ IsBlocked Program.ordered_lock s
    moves running blocked =
        let sound = bank-Sound Program.ordered_lock r in
        let (w, l, still, exist) =
          main_waits sound (main_blocked s running (blocked (Turn.of_main 0) refl)) in
        let stuck : IsStuck Program.ordered_lock s.threads = (λ v c m ok.
          thread_blocked s running v c (exist v m) (blocked (Turn.of_thread v c) ok)) in
        let ended =
          ordered_stuck-AllReturned (threads-Reached Program.ordered_lock r).1
            (ground (arith, running)) stuck in
        absurd (ground (arith, still, ended.0 w l))
