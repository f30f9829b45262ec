-- ===== src/Multithreading/Thread/Main.antt =====
-- `main` of thread.c, beside the thread.
use operating_systems_and_ne.Base.{
  ℕ, suc, ◌+◌, ◌≤◌, ◌≡◌, ◌≢◌, refl, Bool, true, false, none, some, List, [], ◌∷◌, arith, ap, ◌∙◌,
}
use operating_systems_and_ne.Base.Int.{ℤ, pos}
use operating_systems_and_ne.Multithreading.Errors.{exit_success}
use operating_systems_and_ne.Multithreading.Main.{
  Call, Threads, Process, Turn, launch, is_running, process_step, Run,
}
use operating_systems_and_ne.Multithreading.Main.Calls.{calls_left}
use operating_systems_and_ne.Multithreading.Main.Order.{Laws, Sound, Run-Sound, success_returned}
use operating_systems_and_ne.Multithreading.Main.Progress.{
  counted, main_waits, main_blocked, thread_blocked,
}
use operating_systems_and_ne.Multithreading.Main.Printing.{printed_once}
use operating_systems_and_ne.Multithreading.Thread.{Shared, Pc, nthreads, move, step, start}

abbrev pub has_returned : Pc → Bool
has_returned Pc.returned = true
has_returned q = false

-- Nothing is left to choose at a step of the thread, and it does not exit.
abbrev pub threads : Threads
threads = record {
  State = Shared;
  Choice = Unit {0};
  step = λ s w c. step s w;
  returned = λ s w. has_returned s.pc;
  exited = λ s. none;
  shown = λ s. s.state;
}

abbrev pub thread_main : List Call
thread_main = Call.thread_create 0 ∷ Call.thread_join 0 ∷ Call.print ∷ []

abbrev pub thread_process : Process threads
thread_process = launch threads start thread_main

thread-Laws : Laws threads nthreads
unfolding step move
thread-Laws = record {
  rests = λ s w c e. ground (arith, e);
  stays = λ s t v w c e h. ground (arith, e);
  few = λ s t w c h. ground arith;
}

thread-Sound :
    (k : ℕ) (s : Process threads) → Run threads thread_process k s → Sound threads nthreads s
thread-Sound k s = Run-Sound thread-Laws (ground arith) (λ w e. ground arith) (λ w l. ground arith)

-- How many steps the thread has made, and what it has left in the variable.
abbrev Written : ℕ → Pc → ℤ → Type 0
Written n Pc.writing z = n ≡ 0
Written n Pc.at_return z = (n ≡ 1) × (z ≡ pos 42)
Written n Pc.returned z = (n ≡ 2) × (z ≡ pos 42)

abbrev Reached : ℕ → Shared → Type 0
Reached n s = Written n s.pc s.state

step-Reached :
    (n : ℕ) (s t : Shared) (w : ℕ) (c : Unit {0})
    → Reached n s
    → step s w ≡ some t
    → Reached (suc n) t
unfolding step move
step-Reached n s t w c q h = ground (arith, q)

Written-low : (n : ℕ) (q : Pc) (z : ℤ) → Written n q z → n ≤ 2
Written-low n Pc.writing z e = omega (arith, e)
Written-low n Pc.at_return z e = omega (arith, e.0)
Written-low n Pc.returned z e = omega (arith, e.0)

Written-returned : (n : ℕ) (q : Pc) (z : ℤ) → Written n q z → has_returned q ≡ true → z ≡ pos 42
Written-returned n Pc.returned z e h = e.1
Written-returned n q z e h = absurd (cc)

-- As long as the thread has not returned, it can make a step.
unreturned_moves : (s : Shared) → has_returned s.pc ≡ false → step s 0 ≢ none
unfolding step move
unreturned_moves s e h = ground (arith, e, h)

-- Neither `main`, if its call succeeds, nor the thread can make a step.
abbrev pub IsBlocked : Process threads → Type 0
IsBlocked s =
    (process_step threads s (Turn.of_main 0) ≡ none)
    × (process_step threads s (Turn.of_thread 0 tt) ≡ none)

-- thread.c as a whole, in every interleaving of `main` and the thread: it makes at most 6 steps; as long
-- as it is not over, some call that succeeds can be made; and if `main` returns EXIT_SUCCESS, it has
-- printed 42.
pub thread_main_lem :
    {k : ℕ} {s : Process threads}
    → Run threads thread_process k s
    → (k ≤ 6)
      × (is_running threads s ≡ true → ¬ IsBlocked s)
      × (s.ended ≡ some exit_success → s.output ≡ pos 42 ∷ [])
thread_main_lem {k} {s} r = (bounded, moves, prints)
  where
    reached : (n : ℕ) × Reached n s.threads × (k + calls_left s ≤ n + 4)
    reached = counted {P = threads} Reached refl step-Reached r

    sound : Sound threads nthreads s
    sound = thread-Sound k s r

    bounded : k ≤ 6
    bounded = omega (arith, Written-low reached.0 s.threads.pc s.threads.state reached.1, reached.2)

    moves : is_running threads s ≡ true → ¬ IsBlocked s
    moves running (main_waits_now, waiting) =
        let (w, l, still, exist) = main_waits sound (main_blocked s running main_waits_now) in
        unreturned_moves s.threads still
          (thread_blocked s running 0 tt (exist 0 (omega arith)) waiting)

    prints : s.ended ≡ some exit_success → s.output ≡ pos 42 ∷ []
    prints e =
        printed_once thread-Laws thread-Sound refl (ground arith) r e
        ∙ ap (λ z. z ∷ [])
            (Written-returned reached.0 s.threads.pc s.threads.state reached.1
              (success_returned sound e 0 (omega arith)))
