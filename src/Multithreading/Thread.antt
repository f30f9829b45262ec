-- ===== src/Multithreading/Thread.antt =====
-- thread.c: one thread writes 42 into a variable of `main`, which waits for it and prints the variable.
pub mod Main
mod Tests
use operating_systems_and_ne.Base.{ℕ, Option, none, some, ltb, if◌then◌else◌}
use operating_systems_and_ne.Base.Int.{ℤ, pos}

abbrev pub nthreads : ℕ
nthreads = 1

-- Where the thread stands in `thread_start`.
pub data Pc : Type 0 where
  writing at_return returned : Pc

-- The variable `state`, and the thread.
pub record Shared : Type 0 where
  pub state : ℤ
  pub pc : Pc

abbrev pub start : Shared
start = record { state = pos 0; pc = Pc.writing }

pub move : Shared → Pc → Option Shared
move s Pc.writing = some (record { state = pos 42; pc = Pc.at_return })
move s Pc.at_return = some (record s { pc = Pc.returned })
move s Pc.returned = none

-- `none`: the thread has returned, or there is no such thread.
pub step : Shared → ℕ → Option Shared
step s w = if ltb w nthreads then move s s.pc else none
