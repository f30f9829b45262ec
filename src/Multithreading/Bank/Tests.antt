-- ===== src/Multithreading/Bank/Tests.antt =====
-- Runs of the two bank programs under given schedules, and the theorems at the states reached.
use operating_systems_and_ne.Base.{
  ℕ, zero, suc, false, ◌*◌, ◌≤◌, ◌<◌, ◌≡◌, ◌⊎◌, ◌↔◌, refl, Option, none, some, List, [], ◌∷◌, ◌++◌,
  length, arith,
}
use operating_systems_and_ne.Base.Int.{pos, pos_part, neg_part, ◌+ℤ◌, ◌-ℤ◌}
use operating_systems_and_ne.Multithreading.Errors.{exit_on_error}
use operating_systems_and_ne.Multithreading.Bank.{
  Program, Bank, Choice, niter, nworkers, ndeposits, initial_balance, sum_balances, lock_order,
  transact, move, step, start,
}
use operating_systems_and_ne.Multithreading.Bank.Invariant.{balance, has_snd}
use operating_systems_and_ne.Multithreading.Bank.Reachable.{Reach, begin, turn}
use operating_systems_and_ne.Multithreading.Bank.Safety.{money_kept, balance_bounds}
use operating_systems_and_ne.Multithreading.Bank.Ledger.{ledger, by}
use operating_systems_and_ne.Multithreading.Bank.Postings.{Represents}
use operating_systems_and_ne.Multithreading.Bank.Logs.{draws, postings, pending}
use operating_systems_and_ne.Multithreading.Bank.Refine.{bank_refines}
use operating_systems_and_ne.Multithreading.Bank.Progress.{
  IsStuck, AllReturned, HaveCrossed, ordered_stuck-AllReturned, deadlock-IsStuck_iff,
}

-- Thread `w` moves, every call succeeds, and the transfers are of `amount` from deposit `w`.
abbrev choice : ℕ → ℕ → Choice
choice amount w = record { err = 0; rand_amount = amount; rand_from = w }

-- A state with the proof that a schedule leads to it.
record Run (p : Program) : Type 0 where
  steps : ℕ
  last : Bank
  reach : Reach p steps last

module _ (p : Program) (amount : ℕ) where
  advance : (r : Run p) (w : ℕ) (o : Option Bank) → step p r.last w (choice amount w) ≡ o → Run p
  advance r w none e = r
  advance r w (some t) e = record {
    steps = suc r.steps;
    last = t;
    reach = turn w (choice amount w) r.reach e;
  }

  turn_of : Run p → ℕ → Run p
  unfolding advance step move transact exit_on_error lock_order ◌+ℤ◌ ◌-ℤ◌
  turn_of r w = advance r w (step p r.last w (choice amount w)) refl

  run : List ℕ → Run p → Run p
  unfolding turn_of
  run [] r = r
  run (w ∷ ws) r = run ws (turn_of r w)

abbrev at_start : (p : Program) → Run p
at_start p = record { steps = 0; last = start; reach = begin }

-- Thread 0 has both mutexes and has lowered one balance.
abbrev in_transfer : Run Program.ordered_lock
in_transfer = run Program.ordered_lock 7 (0 ∷ 0 ∷ 0 ∷ 0 ∷ 0 ∷ []) (at_start Program.ordered_lock)

in_transfer_balance : balance in_transfer.last 0 ≡ pos 93
unfolding run
in_transfer_balance = refl

times : ℕ → ℕ → List ℕ
times zero w = []
times (suc n) w = w ∷ times n w

abbrev ended : Run Program.ordered_lock
ended = run Program.ordered_lock 0 (times 901 0 ++ times 901 1) (at_start Program.ordered_lock)

ended_steps : ended.steps ≡ 1802
unfolding run times
ended_steps = refl

-- Thread 0 has made a whole transfer of 7, and thread 1 has the first mutex of another.
abbrev transferred : Run Program.ordered_lock
transferred = run Program.ordered_lock 7 (times 9 0 ++ (1 ∷ 1 ∷ [])) (at_start Program.ordered_lock)

transferred_balances :
    (balance transferred.last 0 ≡ pos 93) × (balance transferred.last 1 ≡ pos 107)
unfolding run times
transferred_balances = (refl, refl)

none_between : (w : ℕ) → w < nworkers → has_snd (transferred.last.workers w).pc ≡ false
unfolding run times
none_between zero l = refl
none_between (suc zero) l = refl
none_between (suc (suc w)) l = absurd (omega arith)

money_kept_example :
    sum_balances transferred.last.deposits ndeposits ≡ pos (ndeposits * initial_balance)
money_kept_example = money_kept {s = transferred.last} transferred.reach none_between

balance_bounds_example :
    (pos_part (balance in_transfer.last 0) ≤ 2000) × (neg_part (balance in_transfer.last 0) ≤ 1800)
balance_bounds_example = balance_bounds {s = in_transfer.last} in_transfer.reach 0 (omega arith)

ended-IsStuck : IsStuck Program.ordered_lock ended.last
unfolding run times step move
ended-IsStuck zero c l e = refl
ended-IsStuck (suc zero) c l e = refl
ended-IsStuck (suc (suc w)) c l e = absurd (omega arith)

ordered_stuck-AllReturned_example :
    AllReturned ended.last
    × ((w : ℕ) → w < nworkers → (ended.last.workers w).i ≡ niter)
    × (sum_balances ended.last.deposits ndeposits ≡ pos (ndeposits * initial_balance))
unfolding run times
ordered_stuck-AllReturned_example =
    ordered_stuck-AllReturned {s = ended.last} ended.reach refl ended-IsStuck

-- Each thread of deadlock.c takes its own deposit first.
abbrev crossed : Run Program.deadlock
crossed = run Program.deadlock 7 (0 ∷ 0 ∷ 1 ∷ 1 ∷ []) (at_start Program.deadlock)

deadlock-IsStuck_iff_example :
    IsStuck Program.deadlock crossed.last ↔ (AllReturned crossed.last ⊎ HaveCrossed crossed.last)
unfolding run
deadlock-IsStuck_iff_example = deadlock-IsStuck_iff {s = crossed.last} crossed.reach refl

deadlock_deadlocks : HaveCrossed crossed.last
unfolding run
deadlock_deadlocks = (_, _, refl, refl, λ e. omega arith)

bank_refines_example :
    Represents in_transfer.last (ledger (postings in_transfer.reach))
    × (length (postings in_transfer.reach) ≤ 200)
    × ((v : ℕ)
        → (by v (draws in_transfer.reach)
            ≡ pending (in_transfer.last.workers v).pc ++ by v (postings in_transfer.reach))
          × (length (by v (draws in_transfer.reach)) ≤ 100))
    × (AllReturned in_transfer.last
        → ((v : ℕ)
            → v < nworkers
            → (by v (postings in_transfer.reach) ≡ by v (draws in_transfer.reach))
              × (length (by v (postings in_transfer.reach)) ≡ 100))
          × (length (postings in_transfer.reach) ≡ 200)
          × ((d : ℕ)
              → d < ndeposits
              → balance in_transfer.last d ≡ ledger (postings in_transfer.reach) d))
bank_refines_example = bank_refines {s = in_transfer.last} in_transfer.reach

-- The posting of the transfer that is under way is in the log of the run.
in_transfer_postings : postings in_transfer.reach ≡ (0, record { from = 0; amount = 7 }) ∷ []
unfolding run postings
in_transfer_postings = refl
