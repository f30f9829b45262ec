-- ===== src/Multithreading/Bank/Refine.antt =====
-- The bank refines the ledger: a transfer is posted when its debit is written, and no other step
-- changes the ledger.
use operating_systems_and_ne.Base.{
  ℕ, ◌*◌, ◌≤◌, ◌<◌, ◌≡◌, refl, sym, ap, ◌∙◌, Option, none, some, List, ◌++◌, length, arith,
  sum_upto, sum_upto-eq-zero, sum_upto-le-mul, sum_upto-eq-mul,
}
use mathlib.Core.Path.{subst}
use operating_systems_and_ne.Base.Int.{pos, ◌+ℤ◌, +ℤ_parts, eq_of_parts}
use operating_systems_and_ne.Multithreading.Bank.{
  Program, Bank, Worker, Pc, Transfer, niter, nworkers, ndeposits, start,
}
use operating_systems_and_ne.Multithreading.Bank.Invariant.{debits, balance, Inv}
use operating_systems_and_ne.Multithreading.Bank.Reachable.{Reach, begin, turn, Reach-Inv}
use operating_systems_and_ne.Multithreading.Bank.Progress.{AllReturned}
use operating_systems_and_ne.Multithreading.Bank.Ledger.{opened, ledger, by}
use operating_systems_and_ne.Multithreading.Bank.Postings.{
  toward, incoming, Represents, posting, after, move-Represents,
}
use operating_systems_and_ne.Multithreading.Bank.Logs.{
  noted, draws, postings, pending, step-move, Reach-Agrees, length-postings, length-draws_le,
}

start-Represents : Represents start opened
start-Represents d l = eq_of_parts _ _ (
    omega (
      arith,
      +ℤ_parts (balance start d) (pos (incoming d start.workers)),
      sum_upto-eq-zero (λ (w : Worker). toward d w.pc) nworkers start.workers (λ w m. refl),
    ))

ledger-after :
    (w : ℕ) (o : Option Transfer) (xs : List (ℕ × Transfer))
    → after o (ledger xs) ≡ ledger (noted w o xs)
ledger-after w none xs = refl
ledger-after w (some x) xs = refl

Reach-Represents :
    {p : Program} {k : ℕ} {s : Bank} (r : Reach p k s) → Represents s (ledger (postings r))
unfolding postings
Reach-Represents begin = start-Represents
Reach-Represents {p} (turn {s = s} {t = t} w c r h) =
    subst (Represents t) (ledger-after w (posting (s.workers w).pc) (postings r)) (
      move-Represents (Reach-Inv r) w c (step-move p s t w c h).0 (s.workers w).pc refl
        (step-move p s t w c h).1 (ledger (postings r)) (Reach-Represents r))

-- Both programs refine the ledger, in every run. The balances, with the money on its way counted as
-- arrived, are those of the ledger to which the transfers that the run posted were posted whole, one
-- after the other, at most 200 of them. Each thread has posted the transfers that it drew with `rand`,
-- in the order in which it drew them, but for the one that it may have at hand, and has drawn at most
-- 100. When both threads have returned, each has posted all that it drew, exactly 100, 200 were
-- posted in all, and the balances are those of the ledger.
pub bank_refines :
    {p : Program} {k : ℕ} {s : Bank} (r : Reach p k s)
    → Represents s (ledger (postings r))
      × (length (postings r) ≤ 200)
      × ((v : ℕ)
          → (by v (draws r) ≡ pending (s.workers v).pc ++ by v (postings r))
            × (length (by v (draws r)) ≤ 100))
      × (AllReturned s
          → ((v : ℕ)
              → v < nworkers
              → (by v (postings r) ≡ by v (draws r)) × (length (by v (postings r)) ≡ 100))
            × (length (postings r) ≡ 200)
            × ((d : ℕ) → d < ndeposits → balance s d ≡ ledger (postings r) d))
bank_refines {p} {s = s} r = (
  Reach-Represents r,
  omega (arith, length-postings r, few),
  λ v. ((Reach-Agrees r v).0, length-draws_le r v),
  λ all. (
    λ v l. done v (all v l),
    length-postings r ∙ full all,
    λ d l. settled all d ∙ Reach-Represents r d l,
  ),
)
  where
    inv : Inv p s
    inv = Reach-Inv r

    done :
        (v : ℕ)
        → (s.workers v).pc ≡ Pc.returned
        → (by v (postings r) ≡ by v (draws r)) × (length (by v (postings r)) ≡ 100)
    done v e =
        let (same, counted) = Reach-Agrees r v in
        (
          sym (same ∙ ap (λ q. pending q ++ by v (postings r)) e),
          counted ∙ ground (arith, inv.fits v, e),
        )

    few : sum_upto debits nworkers s.workers ≤ nworkers * niter
    few = sum_upto-le-mul debits nworkers niter s.workers (λ w l. ground (arith, inv.fits w))

    full : AllReturned s → sum_upto debits nworkers s.workers ≡ nworkers * niter
    full all =
        sum_upto-eq-mul debits nworkers niter s.workers (λ w l. ground (arith, inv.fits w, all w l))

    settled : AllReturned s → (d : ℕ) → balance s d ≡ balance s d +ℤ pos (incoming d s.workers)
    settled all d = eq_of_parts _ _ (
        omega (
          arith,
          +ℤ_parts (balance s d) (pos (incoming d s.workers)),
          sum_upto-eq-zero (λ (w : Worker). toward d w.pc) nworkers s.workers
              (λ w l. ground (arith, all w l)),
        ))
