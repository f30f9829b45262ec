-- ===== src/Multithreading/Race.antt =====
-- race.c: five threads count an integer down with no mutex. `step` lets one thread do its next
-- access to the integer.
pub mod Outcomes
pub mod Main
mod Tests
use operating_systems_and_ne.Base.{ℕ, Option, none, some, ltb, if◌then◌else◌, update}
use operating_systems_and_ne.Base.Int.{ℤ, pos, ltb_ℤ, ◌-ℤ◌}

abbrev pub nthreads : ℕ
nthreads = 5

-- Where a thread stands in `thread_start`; the decrement reads and then writes.
pub data Pc : Type 0 where
  testing reading : Pc
  writing : (read : ℤ) → Pc
  returned : Pc

pub record Sale : Type 0 where
  pub ntickets : ℤ
  pub pc : ℕ → Pc

-- The state that `main` sets up after `atoi`; its calls are in Main.
abbrev pub start : ℤ → Sale
start number = record { ntickets = number; pc = λ _. Pc.testing }

abbrev goto : Sale → ℕ → Pc → Sale
goto s w q = record s { pc = update s.pc w q }

pub move : Sale → ℕ → Pc → Option Sale
move s w Pc.testing = some (goto s w (if ltb_ℤ (pos 0) s.ntickets then Pc.reading else Pc.returned))
move s w Pc.reading = some (goto s w (Pc.writing s.ntickets))
move s w (Pc.writing read) = some (record (goto s w Pc.testing) { ntickets = read -ℤ pos 1 })
move s w Pc.returned = none

-- `none`: the thread has returned.
pub step : Sale → ℕ → Option Sale
step s w = if ltb w nthreads then move s w (s.pc w) else none
