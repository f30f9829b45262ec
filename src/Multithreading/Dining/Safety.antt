-- ===== src/Multithreading/Dining/Safety.antt =====
-- What the forks guarantee in all three programs.
use operating_systems_and_ne.Base.{ℕ, ◌<◌, ◌≡◌, ◌≢◌, some, arith}
use operating_systems_and_ne.Multithreading.Dining.{Program, Pc, Table, nphilosopher, phils}
use operating_systems_and_ne.Multithreading.Dining.Invariant.{Inv, Reach, Reach-Inv}

-- In every state that any of the three programs can reach, two philosophers who eat share no
-- fork: the right fork of the one is not the left fork of the other. Each has both of its forks.
pub eating_apart :
    {v : Program} {s : Table}
    → Reach v s
    → (i j : ℕ) → i < nphilosopher
    → j < nphilosopher
    → s.pc i ≡ Pc.eating
    → s.pc j ≡ Pc.eating
    → ((phils i).right_fork ≢ (phils j).left_fork)
      × (s.forks (phils i).left_fork ≡ some i)
      × (s.forks (phils i).right_fork ≡ some i)
eating_apart {v} {s} r i j li lj ei ej =
    ground (arith, inv.left_held i, inv.right_held i, inv.left_held j)
  where
    inv : Inv v s
    inv = Reach-Inv r
