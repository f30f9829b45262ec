-- ===== src/Multithreading/Bank/Invariant.antt =====
-- What holds in every state of the bank: who has which mutex, what the threads have read, and how much
-- money is on its way.
use operating_systems_and_ne.Base.{
  ℕ, ◌+◌, ◌*◌, ◌≤◌, ◌<◌, ◌≡◌, ◌⊎◌, refl, Bool, true, false, some, arith, sum_upto, sum_upto-eq-zero,
}
use operating_systems_and_ne.Base.Int.{ℤ, pos_part, neg_part}
use operating_systems_and_ne.Multithreading.Bank.{
  Program, Bank, Worker, Pc, Stage, Transfer, niter, nworkers, ndeposits, lock_order, dest, start,
}

abbrev pub has_fst : Pc → Bool
has_fst (Pc.exec_transaction Stage.locking_fst x) = false
has_fst (Pc.exec_transaction g x) = true
has_fst _ = false

abbrev pub has_snd : Pc → Bool
has_snd (Pc.exec_transaction Stage.locking_fst x) = false
has_snd (Pc.exec_transaction Stage.locking_snd x) = false
has_snd (Pc.exec_transaction Stage.unlocking_fst x) = false
has_snd (Pc.exec_transaction g x) = true
has_snd _ = false

abbrev pub job : Pc → Transfer
job (Pc.exec_transaction g x) = x
job _ = record { from = 0; amount = 0 }

-- Money that has left one deposit and has not reached the other.
abbrev pub in_transit : Pc → ℕ
in_transit (Pc.exec_transaction Stage.crediting x) = x.amount
in_transit (Pc.exec_transaction (Stage.credited _) x) = x.amount
in_transit _ = 0

abbrev pub has_debited : Pc → ℕ
has_debited (Pc.exec_transaction Stage.locking_fst x) = 0
has_debited (Pc.exec_transaction Stage.locking_snd x) = 0
has_debited (Pc.exec_transaction Stage.debiting x) = 0
has_debited (Pc.exec_transaction (Stage.debited _) x) = 0
has_debited (Pc.exec_transaction g x) = 1
has_debited _ = 0

abbrev pub transit : Worker → ℕ
transit w = in_transit w.pc

-- How often the thread has lowered a balance.
abbrev pub debits : Worker → ℕ
debits w = w.i + has_debited w.pc

abbrev pub Fits : ℕ → Pc → Type 0
Fits i Pc.loop_head = i ≤ niter
Fits i (Pc.exec_transaction g x) = (i < niter) × (x.from < ndeposits) × (x.amount < 10)
Fits i Pc.returned = i ≡ niter

-- What a thread has read is still there.
abbrev pub IsFresh : Bank → Pc → Type 0
IsFresh s (Pc.exec_transaction (Stage.debited read) x) = (s.deposits x.from).balance ≡ read
IsFresh s (Pc.exec_transaction (Stage.credited read) x) = (s.deposits (dest x)).balance ≡ read
IsFresh s _ = Unit

abbrev pub Owns : Program → Bank → ℕ → ℕ → Type 0
Owns p s d j =
    (j < nworkers)
    × (((has_fst (s.workers j).pc ≡ true) × ((lock_order p (job (s.workers j).pc)).0 ≡ d))
        ⊎ ((has_snd (s.workers j).pc ≡ true) × ((lock_order p (job (s.workers j).pc)).1 ≡ d)))

abbrev pub balance : Bank → ℕ → ℤ
balance s d = (s.deposits d).balance

pub record Inv (p : Program) (s : Bank) : Type 0 where
  pub fits : (w : ℕ) → Fits (s.workers w).i (s.workers w).pc
  pub fst_held :
      (w : ℕ)
      → w < nworkers
      → has_fst (s.workers w).pc ≡ true
      → (s.deposits (lock_order p (job (s.workers w).pc)).0).mutex ≡ some w
  pub snd_held :
      (w : ℕ)
      → w < nworkers
      → has_snd (s.workers w).pc ≡ true
      → (s.deposits (lock_order p (job (s.workers w).pc)).1).mutex ≡ some w
  pub owned : (d j : ℕ) → (s.deposits d).mutex ≡ some j → Owns p s d j
  pub fresh : (w : ℕ) → w < nworkers → IsFresh s (s.workers w).pc
  pub kept :
      pos_part (balance s 0) + pos_part (balance s 1) + sum_upto transit nworkers s.workers
      ≡ neg_part (balance s 0) + neg_part (balance s 1) + 200
  pub low :
      (d : ℕ)
      → 100 + neg_part (balance s d)
        ≤ pos_part (balance s d) + 9 * sum_upto debits nworkers s.workers

pub Inv-start : (p : Program) → Inv p start
Inv-start p = record {
  fits = λ w. omega arith;
  fst_held = λ w l e. cc;
  snd_held = λ w l e. cc;
  owned = λ d j e. cc;
  fresh = λ w l. tt;
  kept = omega (arith, sum_upto-eq-zero transit nworkers start.workers (λ i l. refl));
  low = λ d. omega (arith, sum_upto-eq-zero debits nworkers start.workers (λ i l. omega arith));
}

-- The two mutexes of a transfer are those of both deposits.
pub lock_order-cases :
    (p : Program) (x : Transfer)
    → x.from < ndeposits
    → (((lock_order p x).0 ≡ 0) × ((lock_order p x).1 ≡ 1))
      ⊎ (((lock_order p x).0 ≡ 1) × ((lock_order p x).1 ≡ 0))
unfolding lock_order
lock_order-cases Program.deadlock x h = ground arith
lock_order-cases Program.ordered_lock x h = ground arith

-- Two threads that both have both mutexes are one.
pub alone :
    {p : Program} {s : Bank}
    → Inv p s
    → (v w : ℕ) → v < nworkers
    → w < nworkers
    → has_snd (s.workers v).pc ≡ true
    → has_snd (s.workers w).pc ≡ true
    → v ≡ w
alone {p} {s} inv v w lv lw ev ew = ground (
  arith,
  inv.fits v,
  inv.fits w,
  inv.fst_held v lv,
  inv.fst_held w lw,
  inv.snd_held v lv,
  inv.snd_held w lw,
  lock_order-cases p (job (s.workers v).pc),
  lock_order-cases p (job (s.workers w).pc),
)
