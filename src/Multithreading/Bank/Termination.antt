-- ===== src/Multithreading/Bank/Termination.antt =====
-- Every step uses up a bounded number of remaining steps.
use operating_systems_and_ne.Base.{
  ℕ, ◌+◌, ◌-◌, ◌*◌, ◌≤◌, ◌<◌, ◌≡◌, none, some, arith, sum_upto, sum_upto-update, weight-le-sum_upto,
  sum_upto-le-mul, refl,
}
use operating_systems_and_ne.Multithreading.Errors.{exit_on_error}
use operating_systems_and_ne.Multithreading.Bank.{
  Program, Bank, Worker, Pc, Stage, Choice, niter, nworkers, transact, move, step, start,
}
use operating_systems_and_ne.Multithreading.Bank.Invariant.{Inv}
use operating_systems_and_ne.Multithreading.Bank.Reachable.{Reach, begin, turn, Reach-Inv}

abbrev stage_steps : Stage → ℕ
stage_steps Stage.locking_fst = 9
stage_steps Stage.locking_snd = 8
stage_steps Stage.debiting = 7
stage_steps (Stage.debited _) = 6
stage_steps Stage.crediting = 5
stage_steps (Stage.credited _) = 4
stage_steps Stage.unlocking_snd = 3
stage_steps Stage.unlocking_fst = 2

abbrev steps_left : ℕ → Pc → ℕ
steps_left i Pc.loop_head = (niter - i) * 9 + 1
steps_left i (Pc.exec_transaction g x) = (niter - i - 1) * 9 + stage_steps g
steps_left i Pc.returned = 0

abbrev worker_steps : Worker → ℕ
worker_steps w = steps_left w.i w.pc

abbrev bank_steps : Bank → ℕ
bank_steps s = elim s.exited [ none ↦ sum_upto worker_steps nworkers s.workers | some _ ↦ 0 ]

module _ {p : Program} {s t : Bank} (inv : Inv p s) (w : ℕ) (c : Choice) (l : w < nworkers) where
  move-steps :
      s.exited ≡ none
      → (q : Pc) → (s.workers w).pc ≡ q
      → move p s w c q ≡ some t
      → bank_steps t < bank_steps s
  unfolding move exit_on_error transact
  move-steps r Pc.loop_head e h =
      grind
        (arith, inv.fits w, sum_upto-update, weight-le-sum_upto worker_steps nworkers s.workers w l)
  move-steps r (Pc.exec_transaction Stage.locking_fst x) e h =
      grind
        (arith, inv.fits w, sum_upto-update, weight-le-sum_upto worker_steps nworkers s.workers w l)
  move-steps r (Pc.exec_transaction g x) e h =
      grind
        (arith, inv.fits w, sum_upto-update, weight-le-sum_upto worker_steps nworkers s.workers w l)
  move-steps r Pc.returned e h = ground arith

step-steps :
    {p : Program} {s t : Bank} (w : ℕ) (c : Choice)
    → Inv p s
    → step p s w c ≡ some t
    → bank_steps t < bank_steps s
unfolding step
step-steps {p} {s} {t} w c inv h = move-steps inv w c moved.1 moved.0 (s.workers w).pc refl moved.2
  where
    moved : (s.exited ≡ none) × (w < nworkers) × (move p s w c (s.workers w).pc ≡ some t)
    moved = ground arith

-- A run takes no more steps than are left at its start.
Reach-steps : {p : Program} {n : ℕ} {s : Bank} → Reach p n s → n + bank_steps s ≤ bank_steps start
Reach-steps begin = omega arith
Reach-steps (turn w c r h) = omega (arith, Reach-steps r, step-steps w c (Reach-Inv r) h)

-- Both programs stop, whatever the scheduler and the calls do: no run has more than 1802 steps.
pub bank_run_bound : {p : Program} {n : ℕ} {s : Bank} → Reach p n s → n ≤ 1802
bank_run_bound r = omega (
  arith,
  Reach-steps r,
  sum_upto-le-mul worker_steps nworkers 901 start.workers (λ i l. omega arith),
)
