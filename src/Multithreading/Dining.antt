-- ===== src/Multithreading/Dining.antt =====
-- The three dining_philosophers programs. A state is the forks, the semaphore and the place of each
-- thread in `thread_start`; `step` lets one thread do its next call. Messages are left out.
pub mod Invariant
pub mod Progress
pub mod Safety
pub mod Main
mod Tests
use operating_systems_and_ne.Base.{
  ℕ, ◌+◌, ◌-◌, ◌%◌, Bool, true, false, ◌&&◌, Option, none, some, ltb, ◌==◌, if◌then◌else◌, update,
}
use operating_systems_and_ne.Multithreading.Errors.{Flow, exit_on_error, exit_failure, Mutex}

-- dining_philosophers.c, dining_philosophers_sem.c, dining_philosophers_sem_macosx.c
pub data Program : Type 0 where
  plain posix_sem dispatch_sem : Program

abbrev pub nphilosopher : ℕ
nphilosopher = 5

abbrev pub nforks : ℕ
nforks = nphilosopher

-- `struct philosopher`: the forks are named by their index in `forks`.
pub record Philosopher : Type 0 where
  pub id : ℕ
  pub left_fork : ℕ
  pub right_fork : ℕ

-- The loop of `main` that fills `phils`.
abbrev pub phils : ℕ → Philosopher
phils i = record { id = i + 1; left_fork = i; right_fork = (i + 1) % nforks }

-- The call that a thread of `thread_start` makes next.
pub data Pc : Type 0 where
  sem_waiting taking_left taking_right eating putting_right putting_left sem_posting : Pc

pub record Table : Type 0 where
  pub forks : ℕ → Mutex
  pub sem : ℕ
  pub pc : ℕ → Pc
  pub exited : Option ℕ

abbrev pub loop_start : Program → Pc
loop_start Program.plain = Pc.taking_left
loop_start _ = Pc.sem_waiting

abbrev pub after_meal : Program → Pc
after_meal Program.plain = Pc.taking_left
after_meal _ = Pc.sem_posting

-- The state that `main` sets up; its calls are in Main. A thread that is not created yet is one that
-- has not moved.
abbrev pub start : Program → Table
start v = record { forks = λ _. none; sem = nforks - 1; pc = λ _. loop_start v; exited = none }

abbrev pub exit_now : Table → Flow → Table → Table
exit_now s Flow.go_on t = t
exit_now s (Flow.exit_process code) t = record s { exited = some code }

-- `pthread_mutex_lock(&forks[f])` by philosopher `i`, checked, and then on to `next`.
abbrev pub lock_fork : Table → ℕ → ℕ → ℕ → Pc → Option Table
lock_fork s i f err next = elim (exit_on_error err) [
  | Flow.go_on ↦ elim (s.forks f) [
    | none ↦ some (record s { forks = update s.forks f (some i); pc = update s.pc i next })
    | some _ ↦ none
  ]
  | Flow.exit_process code ↦ some (record s { exited = some code })
]

-- `pthread_mutex_unlock(&forks[f])`, checked.
abbrev pub unlock_fork : Table → ℕ → ℕ → ℕ → Pc → Option Table
unlock_fork s i f err next = some (
    exit_now s (exit_on_error err)
      (record s { forks = update s.forks f none; pc = update s.pc i next }))

-- `sem_wait` and `sem_post` give -1 on an error (`err` is not 0), and the program exits.
-- `dispatch_semaphore_wait` and `dispatch_semaphore_signal` are not checked.
abbrev pub sem_error : Program → ℕ → Bool
sem_error Program.posix_sem err = if err == 0 then false else true
sem_error _ err = false

abbrev pub wait_sem : Program → Table → ℕ → ℕ → Option Table
wait_sem v s i err =
    if sem_error v err
    then some (record s { exited = some exit_failure })
    else if s.sem == 0
    then none
    else some (record s { sem = s.sem - 1; pc = update s.pc i Pc.taking_left })

abbrev pub post_sem : Program → Table → ℕ → ℕ → Option Table
post_sem v s i err =
    if sem_error v err
    then some (record s { exited = some exit_failure })
    else some (record s { sem = s.sem + 1; pc = update s.pc i Pc.sem_waiting })

-- The body of the loop of `thread_start`, a call at a time. `err` is what the call returns.
pub move : Program → Table → ℕ → ℕ → Pc → Option Table
move v s i err Pc.sem_waiting = wait_sem v s i err
move v s i err Pc.taking_left = lock_fork s i (phils i).left_fork err Pc.taking_right
move v s i err Pc.taking_right = lock_fork s i (phils i).right_fork err Pc.eating
move v s i err Pc.eating = some (record s { pc = update s.pc i Pc.putting_right })
move v s i err Pc.putting_right = unlock_fork s i (phils i).right_fork err Pc.putting_left
move v s i err Pc.putting_left = unlock_fork s i (phils i).left_fork err (after_meal v)
move v s i err Pc.sem_posting = post_sem v s i err

abbrev pub is_running : Table → Bool
is_running s = elim s.exited [ none ↦ true | some _ ↦ false ]

-- `none`: the thread waits for a fork or for the semaphore, or the process is over.
pub step : Program → Table → ℕ → ℕ → Option Table
step v s i err = if is_running s && ltb i nphilosopher then move v s i err (s.pc i) else none
