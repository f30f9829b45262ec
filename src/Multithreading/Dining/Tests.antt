-- ===== src/Multithreading/Dining/Tests.antt =====
-- Runs of the dining philosophers under given schedules, and the theorems at the states reached.
use operating_systems_and_ne.Base.{
  ℕ, ◌<◌, ◌≡◌, ◌≢◌, ◌↔◌, refl, none, some, List, [], ◌∷◌, arith, inl, inr, Option-cases,
}
use operating_systems_and_ne.Multithreading.Errors.{exit_on_error}
use operating_systems_and_ne.Multithreading.Dining.{
  Program, Table, nphilosopher, phils, move, step, start,
}
use operating_systems_and_ne.Multithreading.Dining.Invariant.{Reach, begin, turn}
use operating_systems_and_ne.Multithreading.Dining.Progress.{
  IsStuck, IsCircularWait, sem_no_deadlock, plain-IsStuck_iff,
}
use operating_systems_and_ne.Multithreading.Dining.Safety.{eating_apart}

-- The philosophers of the list move in turn, every call succeeds, and who waits is passed over.
after : Program → List ℕ → Table → Table
unfolding step move exit_on_error
after v [] s = s
after v (i ∷ is) s = elim (step v s i 0) [ none ↦ after v is s | some t ↦ after v is t ]

Reach-after : {v : Program} (is : List ℕ) {s : Table} → Reach v s → Reach v (after v is s)
unfolding after
Reach-after [] r = r
Reach-after {v} (i ∷ is) {s} r = elim (Option-cases (step v s i 0)) [
  | inl e ↦ rw (e, after) (Reach-after is r)
  | inr (t, e) ↦ rw (e, after) (Reach-after is (turn i 0 r e))
]

-- Philosophers 0 and 2 eat together.
abbrev two_eat : Table
two_eat = after Program.posix_sem (0 ∷ 2 ∷ 0 ∷ 2 ∷ 0 ∷ 2 ∷ []) (start Program.posix_sem)

eating_apart_example :
    ((phils 0).right_fork ≢ (phils 2).left_fork)
    × (two_eat.forks (phils 0).left_fork ≡ some 0)
    × (two_eat.forks (phils 0).right_fork ≡ some 0)
unfolding after
eating_apart_example =
    eating_apart {v = Program.posix_sem} (Reach-after (0 ∷ 2 ∷ 0 ∷ 2 ∷ 0 ∷ 2 ∷ []) begin) 0 2
      (omega arith) (omega arith) refl refl

-- Four philosophers have their left forks, and the fifth waits for the semaphore.
abbrev four_in : List ℕ
four_in = 0 ∷ 1 ∷ 2 ∷ 3 ∷ 0 ∷ 1 ∷ 2 ∷ 3 ∷ []

abbrev four_have_forks : Table
four_have_forks = after Program.posix_sem four_in (start Program.posix_sem)

sem_no_deadlock_example :
    (i : ℕ) × (t : Table) × (i < nphilosopher)
    × (step Program.posix_sem four_have_forks i 0 ≡ some t)
unfolding after
sem_no_deadlock_example =
    sem_no_deadlock {v = Program.posix_sem} (λ e. cc) (Reach-after four_in begin) refl

fifth_waits : step Program.posix_sem four_have_forks 4 0 ≡ none
unfolding after
fifth_waits = refl

-- Without the semaphore the fifth philosopher takes a fork too, and no one can move.
abbrev all_five : List ℕ
all_five = 0 ∷ 1 ∷ 2 ∷ 3 ∷ 4 ∷ []

abbrev five_have_forks : Table
five_have_forks = after Program.plain all_five (start Program.plain)

plain-IsStuck_iff_example : IsStuck Program.plain five_have_forks ↔ IsCircularWait five_have_forks
unfolding after
plain-IsStuck_iff_example =
    plain-IsStuck_iff {s = five_have_forks} (Reach-after all_five begin) refl

plain_deadlocks : Reach Program.plain five_have_forks × IsCircularWait five_have_forks
unfolding after
plain_deadlocks = (Reach-after all_five begin, λ i l. ground arith)
