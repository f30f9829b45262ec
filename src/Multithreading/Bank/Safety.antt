-- ===== src/Multithreading/Bank/Safety.antt =====
-- What holds of the balances in both programs, and how long they can run.
use operating_systems_and_ne.Base.{
  ℕ, ◌+◌, ◌*◌, ◌≤◌, ◌<◌, ◌≡◌, true, false, arith, sum_upto, sum_upto-le-mul, sum_upto-eq-zero,
}
use operating_systems_and_ne.Base.Int.{pos, pos_part, neg_part, +ℤ_parts, eq_of_parts, ◌+ℤ◌}
use operating_systems_and_ne.Multithreading.Bank.{
  Program, Bank, Worker, niter, nworkers, ndeposits, initial_balance, sum_balances,
}
use operating_systems_and_ne.Multithreading.Bank.Invariant.{
  has_snd, in_transit, has_debited, balance, Inv, alone,
}
use operating_systems_and_ne.Multithreading.Bank.Reachable.{Reach, Reach-Inv}

-- In both programs, two threads that are between the second lock and the first unlock of
-- `exec_transaction` are the same thread.
pub transfers_apart :
    {p : Program} {n : ℕ} {s : Bank}
    → Reach p n s
    → (v w : ℕ) → v < nworkers
    → w < nworkers
    → has_snd (s.workers v).pc ≡ true
    → has_snd (s.workers w).pc ≡ true
    → v ≡ w
transfers_apart r = alone (Reach-Inv r)

-- In both programs no update is lost: whenever no thread is between the second lock and the first
-- unlock, the balances add up to what the deposits started with.
pub money_kept :
    {p : Program} {n : ℕ} {s : Bank}
    → Reach p n s
    → ((w : ℕ) → w < nworkers → has_snd (s.workers w).pc ≡ false)
    → sum_balances s.deposits ndeposits ≡ pos (ndeposits * initial_balance)
unfolding sum_balances
money_kept {p} {s = s} r quiet = eq_of_parts _ _ (
    omega (
      arith,
      inv.kept,
      none_in_transit,
      +ℤ_parts (pos 0) (balance s 0),
      +ℤ_parts (pos 0 +ℤ balance s 0) (balance s 1),
    ))
  where
    inv : Inv p s
    inv = Reach-Inv r

    none_in_transit : sum_upto (λ (w : Worker). in_transit w.pc) nworkers s.workers ≡ 0
    none_in_transit = sum_upto-eq-zero _ nworkers s.workers (λ w l. ground (arith, quiet w l))

-- How far a balance can go: after at most 200 transfers of at most 9 from a start of 100 it fits
-- an `int` with room to spare, so the arithmetic of the program never overflows.
pub balance_bounds :
    {p : Program} {n : ℕ} {s : Bank}
    → Reach p n s
    → (d : ℕ) → d < ndeposits
    → (pos_part (balance s d) ≤ 2000) × (neg_part (balance s d) ≤ 1800)
balance_bounds {p} {s = s} r d l = ground (arith, inv.kept, inv.low 0, inv.low 1, few_debits)
  where
    inv : Inv p s
    inv = Reach-Inv r

    few_debits : sum_upto (λ (w : Worker). w.i + has_debited w.pc) nworkers s.workers ≤ 2 * niter
    few_debits = sum_upto-le-mul _ nworkers niter s.workers (λ w m. ground (arith, inv.fits w))
