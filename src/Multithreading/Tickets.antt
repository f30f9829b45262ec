-- ===== src/Multithreading/Tickets.antt =====
-- mutex.c: five threads count an integer down under a mutex. `step` lets one thread do its next
-- call or its next access to the integer.
pub mod Invariant
pub mod Progress
pub mod Main
pub mod Negative
mod Tests
use operating_systems_and_ne.Base.{
  ℕ, Bool, true, false, Option, none, some, ltb, ◌==◌, if◌then◌else◌, update,
}
use operating_systems_and_ne.Base.Int.{ℤ, pos, negsuc, ltb_ℤ, ◌-ℤ◌}
use operating_systems_and_ne.Multithreading.Errors.{Mutex}

abbrev pub nthreads : ℕ
nthreads = 5

-- Where a thread stands in the loop of `thread_start`. At the second test `sold` tells whether the
-- body of the first `if` was run; the decrement reads and then writes.
pub data Pc : Type 0 where
  locking first_test reading : Pc
  writing : (read : ℤ) → Pc
  second_test : (sold : Bool) → Pc
  unlocking_to_break unlocking returned : Pc

-- `struct tickets`, and the threads.
pub record Sale : Type 0 where
  pub ntickets : ℤ
  pub mutex : Mutex
  pub pc : ℕ → Pc

-- The state that `main` sets up after `atoi`; its calls are in Main. A thread that is not created yet
-- is one that has not moved.
abbrev pub start : ℤ → Sale
start number = record { ntickets = number; mutex = none; pc = λ _. Pc.locking }

abbrev pub goto : Sale → ℕ → Pc → Sale
goto s w q = record s { pc = update s.pc w q }

abbrev is_zero : ℤ → Bool
is_zero (pos n) = n == 0
is_zero (negsuc n) = false

-- The loop of `thread_start`. The results of the mutex calls are not checked there, and the calls
-- on a valid mutex succeed.
pub move : Sale → ℕ → Pc → Option Sale
move s w Pc.locking = elim s.mutex [
  | none ↦ some (record (goto s w Pc.first_test) { mutex = some w })
  | some _ ↦ none
]
move s w Pc.first_test =
    some (goto s w (if ltb_ℤ (pos 0) s.ntickets then Pc.reading else Pc.second_test false))
move s w Pc.reading = some (goto s w (Pc.writing s.ntickets))
move s w (Pc.writing read) =
    some (record (goto s w (Pc.second_test true)) { ntickets = read -ℤ pos 1 })
move s w (Pc.second_test sold) =
    some (goto s w (if is_zero s.ntickets then Pc.unlocking_to_break else Pc.unlocking))
move s w Pc.unlocking_to_break = some (record (goto s w Pc.returned) { mutex = none })
move s w Pc.unlocking = some (record (goto s w Pc.locking) { mutex = none })
move s w Pc.returned = none

-- `none`: the thread waits for the mutex or has returned.
pub step : Sale → ℕ → Option Sale
step s w = if ltb w nthreads then move s w (s.pc w) else none
