-- ===== src/Multithreading/Bank.antt =====
-- deadlock.c and ordered_lock.c: two threads move money between two deposits, each of which has a
-- mutex. `step` lets one thread do its next call or its next access to a balance.
pub mod Invariant
pub mod Reachable
pub mod Safety
pub mod Progress
pub mod Termination
pub mod Ledger
pub mod Postings
pub mod Logs
pub mod Refine
pub mod Main
mod Tests
use operating_systems_and_ne.Base.{
  ℕ, zero, suc, ◌+◌, ◌-◌, ◌%◌, Bool, true, false, ◌&&◌, Option, none, some, ltb, ◌==◌,
  if◌then◌else◌, update,
}
use operating_systems_and_ne.Base.Int.{ℤ, pos, ◌+ℤ◌, ◌-ℤ◌}
use operating_systems_and_ne.Multithreading.Errors.{Flow, exit_on_error, Mutex}

-- deadlock.c and ordered_lock.c
pub data Program : Type 0 where
  deadlock ordered_lock : Program

abbrev pub initial_balance : ℕ
initial_balance = 100

abbrev pub ndeposits : ℕ
ndeposits = 2

abbrev pub nworkers : ℕ
nworkers = 2

abbrev pub niter : ℕ
niter = 100

-- `struct deposit`
pub record Deposit : Type 0 where
  pub balance : ℤ
  pub mutex : Mutex

-- `deposit_init`; a failing `pthread_mutex_init` ends the process before a thread exists.
abbrev pub deposit_init : ℕ → Deposit
deposit_init initial = record { balance = pos initial; mutex = none }

-- `sum_balances`: the loop over `deps[0]` to `deps[ndeps - 1]`.
pub sum_balances : (ℕ → Deposit) → ℕ → ℤ
sum_balances deps zero = pos 0
sum_balances deps (suc n) = sum_balances deps n +ℤ (deps n).balance

-- The arguments of `exec_transaction`: the deposits are `deps[from]` and `deps[1 - from]`.
pub record Transfer : Type 0 where
  pub from : ℕ
  pub amount : ℕ

abbrev pub dest : Transfer → ℕ
dest x = 1 - x.from

abbrev pub swap_mtx : ℕ × ℕ → ℕ × ℕ
swap_mtx (a, b) = (b, a)

-- The mutexes `fst` and `snd`, as indices of their deposits. `from > to` compares the places in
-- the array.
pub lock_order : Program → Transfer → ℕ × ℕ
lock_order Program.deadlock x = (x.from, dest x)
lock_order Program.ordered_lock x =
    if ltb (dest x) x.from then swap_mtx (x.from, dest x) else (x.from, dest x)

-- Where a thread stands in `exec_transaction`. A `-=` or `+=` on a balance reads and then writes.
pub data Stage : Type 0 where
  locking_fst locking_snd debiting : Stage
  debited : (read : ℤ) → Stage
  crediting : Stage
  credited : (read : ℤ) → Stage
  unlocking_snd unlocking_fst : Stage

pub data Pc : Type 0 where
  loop_head : Pc
  exec_transaction : Stage → Transfer → Pc
  returned : Pc

-- The local variables of `thread_start`.
pub record Worker : Type 0 where
  pub i : ℕ
  pub pc : Pc

pub record Bank : Type 0 where
  pub deposits : ℕ → Deposit
  pub workers : ℕ → Worker
  pub exited : Option ℕ

-- What the outside decides at a step: the result of the call, and the two values of `rand`.
pub record Choice : Type 0 where
  pub err : ℕ
  pub rand_amount : ℕ
  pub rand_from : ℕ

-- The state that `main` sets up; its calls are in Main. A thread that is not created yet is one that
-- has not moved.
abbrev pub start : Bank
start = record {
  deposits = λ _. deposit_init initial_balance;
  workers = λ _. record { i = 0; pc = Pc.loop_head };
  exited = none;
}

abbrev pub goto : Bank → ℕ → Stage → Transfer → Bank
goto s w g x = record s {
  workers = update s.workers w (record (s.workers w) { pc = Pc.exec_transaction g x });
}

abbrev pub set_balance : Bank → ℕ → ℤ → Bank
set_balance s d v = record s {
  deposits = update s.deposits d (record (s.deposits d) { balance = v });
}

abbrev pub set_mutex : Bank → ℕ → Mutex → Bank
set_mutex s d m = record s { deposits = update s.deposits d (record (s.deposits d) { mutex = m }) }

abbrev pub checked : Bank → ℕ → Option Bank → Option Bank
checked s err next = elim (exit_on_error err) [
  | Flow.go_on ↦ next
  | Flow.exit_process code ↦ some (record s { exited = some code })
]

-- `exit_on_error(pthread_mutex_lock(...), ...)`: the thread waits while the mutex is held.
abbrev pub lock : Bank → ℕ → ℕ → ℕ → Bank → Option Bank
lock s w d err next =
    checked s err
      (elim (s.deposits d).mutex [ none ↦ some (set_mutex next d (some w)) | some _ ↦ none ])

-- One step of `exec_transaction` in thread `w`.
pub transact : Program → Bank → ℕ → Choice → Stage → Transfer → Option Bank
transact p s w c Stage.locking_fst x =
    lock s w (lock_order p x).0 c.err (goto s w Stage.locking_snd x)
transact p s w c Stage.locking_snd x = lock s w (lock_order p x).1 c.err (goto s w Stage.debiting x)
transact p s w c Stage.debiting x = some (goto s w (Stage.debited (s.deposits x.from).balance) x)
transact p s w c (Stage.debited read) x =
    some (set_balance (goto s w Stage.crediting x) x.from (read -ℤ pos x.amount))
transact p s w c Stage.crediting x =
    some (goto s w (Stage.credited (s.deposits (dest x)).balance) x)
transact p s w c (Stage.credited read) x =
    some (set_balance (goto s w Stage.unlocking_snd x) (dest x) (read +ℤ pos x.amount))
transact p s w c Stage.unlocking_snd x =
    checked s c.err (some (set_mutex (goto s w Stage.unlocking_fst x) (lock_order p x).1 none))
transact p s w c Stage.unlocking_fst x = checked s c.err (
    some (record (set_mutex s (lock_order p x).0 none) {
      workers = update s.workers w (record { i = (s.workers w).i + 1; pc = Pc.loop_head });
    }))

-- One step of `thread_start` in thread `w`.
pub move : Program → Bank → ℕ → Choice → Pc → Option Bank
move p s w c Pc.loop_head =
    if ltb (s.workers w).i niter
    then some (
        goto s w Stage.locking_fst
          (record { from = c.rand_from % ndeposits; amount = c.rand_amount % 10 }))
    else some
        (record s { workers = update s.workers w (record (s.workers w) { pc = Pc.returned }) })
move p s w c (Pc.exec_transaction g x) = transact p s w c g x
move p s w c Pc.returned = none

abbrev pub is_running : Bank → Bool
is_running s = elim s.exited [ none ↦ true | some _ ↦ false ]

-- `none`: the thread waits for a mutex or has returned, or the process is over.
pub step : Program → Bank → ℕ → Choice → Option Bank
step p s w c = if is_running s && ltb w nworkers then move p s w c (s.workers w).pc else none
