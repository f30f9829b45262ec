-- ===== src/Multithreading/Bank/Reachable.antt =====
-- The invariant of the bank is kept by every step, so that every state that can be reached has it.
use operating_systems_and_ne.Base.{
  ℕ, suc, ◌+◌, ◌*◌, ◌≤◌, ◌<◌, ◌≡◌, refl, true, some, arith, sum_upto, sum_upto-update,
}
use operating_systems_and_ne.Base.Int.{pos, pos_part, neg_part, +ℤ_parts, -ℤ_parts}
use operating_systems_and_ne.Multithreading.Errors.{exit_on_error}
use operating_systems_and_ne.Multithreading.Bank.{
  Program, Bank, Pc, Stage, Choice, nworkers, lock_order, transact, move, step, start,
}
use operating_systems_and_ne.Multithreading.Bank.Invariant.{
  has_fst, has_snd, job, transit, debits, Fits, IsFresh, Owns, balance, Inv, Inv-start,
  lock_order-cases, alone,
}

-- Thread `w` moves in a state where the invariant holds.
module _ {p : Program} {s t : Bank} (inv : Inv p s) (w : ℕ) (c : Choice) (l : w < nworkers) where
  move-Fits :
      (q : Pc)
      → (s.workers w).pc ≡ q
      → move p s w c q ≡ some t
      → (v : ℕ) → Fits (t.workers v).i (t.workers v).pc
  unfolding move exit_on_error transact
  move-Fits Pc.loop_head e h v = ground (arith, inv.fits v, inv.fits w)
  move-Fits (Pc.exec_transaction Stage.locking_fst x) e h v = ground (arith, inv.fits v, inv.fits w)
  move-Fits (Pc.exec_transaction g x) e h v = ground (arith, inv.fits v, inv.fits w)
  move-Fits Pc.returned e h v = ground (arith, inv.fits v, inv.fits w)

  move-fst_held :
      (q : Pc)
      → (s.workers w).pc ≡ q
      → move p s w c q ≡ some t
      → (v : ℕ) → v < nworkers
      → has_fst (t.workers v).pc ≡ true
      → (t.deposits (lock_order p (job (t.workers v).pc)).0).mutex ≡ some v
  unfolding move exit_on_error transact
  move-fst_held Pc.loop_head e h v m q = ground (arith, inv.fst_held v m)
  move-fst_held (Pc.exec_transaction Stage.locking_fst x) e h v m q =
      ground (arith, inv.fst_held v m)
  move-fst_held (Pc.exec_transaction g x) e h v m q = ground (
    arith,
    inv.fst_held v m,
    inv.fst_held w l,
    inv.snd_held w l,
    inv.fits w,
    lock_order-cases p x,
  )
  move-fst_held Pc.returned e h v m q = ground (arith, inv.fst_held v m)

  move-snd_held :
      (q : Pc)
      → (s.workers w).pc ≡ q
      → move p s w c q ≡ some t
      → (v : ℕ) → v < nworkers
      → has_snd (t.workers v).pc ≡ true
      → (t.deposits (lock_order p (job (t.workers v).pc)).1).mutex ≡ some v
  unfolding move exit_on_error transact
  move-snd_held Pc.loop_head e h v m q = ground (arith, inv.snd_held v m)
  move-snd_held (Pc.exec_transaction Stage.locking_fst x) e h v m q =
      ground (arith, inv.snd_held v m)
  move-snd_held (Pc.exec_transaction g x) e h v m q = ground (
    arith,
    inv.snd_held v m,
    inv.fst_held w l,
    inv.snd_held w l,
    inv.fits w,
    lock_order-cases p x,
  )
  move-snd_held Pc.returned e h v m q = ground (arith, inv.snd_held v m)

  move-owned :
      (q : Pc)
      → (s.workers w).pc ≡ q
      → move p s w c q ≡ some t
      → (d j : ℕ) → (t.deposits d).mutex ≡ some j
      → Owns p t d j
  unfolding move exit_on_error transact
  move-owned Pc.loop_head e h d j q = ground (arith, inv.owned d j)
  move-owned (Pc.exec_transaction Stage.locking_fst x) e h d j q = ground (arith, inv.owned d j)
  move-owned (Pc.exec_transaction g x) e h d j q = ground (arith, inv.owned d j)
  move-owned Pc.returned e h d j q = ground (arith, inv.owned d j)

  move-IsFresh :
      (q : Pc)
      → (s.workers w).pc ≡ q
      → move p s w c q ≡ some t
      → (v : ℕ) → v < nworkers
      → IsFresh t (t.workers v).pc
  unfolding move exit_on_error transact
  move-IsFresh Pc.loop_head e h v m = ground (arith, inv.fresh v m)
  move-IsFresh (Pc.exec_transaction Stage.locking_fst x) e h v m = ground (arith, inv.fresh v m)
  move-IsFresh (Pc.exec_transaction g x) e h v m =
      ground (arith, inv.fresh v m, alone inv v w m l, inv.fits w)
  move-IsFresh Pc.returned e h v m = ground (arith, inv.fresh v m)

  move-kept :
      (q : Pc)
      → (s.workers w).pc ≡ q
      → move p s w c q ≡ some t
      → pos_part (balance t 0) + pos_part (balance t 1) + sum_upto transit nworkers t.workers
        ≡ neg_part (balance t 0) + neg_part (balance t 1) + 200
  unfolding move exit_on_error transact
  move-kept Pc.loop_head e h = grind (arith, inv.kept, sum_upto-update)
  move-kept (Pc.exec_transaction (Stage.debited read) x) e h = ground (
    arith,
    inv.kept,
    inv.fresh w l,
    inv.fits w,
    -ℤ_parts read (pos x.amount),
    sum_upto-update transit nworkers s.workers w
        (record (s.workers w) { pc = Pc.exec_transaction Stage.crediting x }) l,
  )
  move-kept (Pc.exec_transaction (Stage.credited read) x) e h = ground (
    arith,
    inv.kept,
    inv.fresh w l,
    inv.fits w,
    +ℤ_parts read (pos x.amount),
    sum_upto-update transit nworkers s.workers w
        (record (s.workers w) { pc = Pc.exec_transaction Stage.unlocking_snd x }) l,
  )
  move-kept (Pc.exec_transaction g x) e h = grind (arith, inv.kept, sum_upto-update)
  move-kept Pc.returned e h = ground (arith, inv.kept)

  move-low :
      (q : Pc)
      → (s.workers w).pc ≡ q
      → move p s w c q ≡ some t
      → (d : ℕ)
      → 100 + neg_part (balance t d)
        ≤ pos_part (balance t d) + 9 * sum_upto debits nworkers t.workers
  unfolding move exit_on_error transact
  move-low Pc.loop_head e h d = grind (arith, inv.low d, sum_upto-update)
  move-low (Pc.exec_transaction (Stage.debited read) x) e h d = ground (
    arith,
    inv.low d,
    inv.fresh w l,
    inv.fits w,
    -ℤ_parts read (pos x.amount),
    sum_upto-update debits nworkers s.workers w
        (record (s.workers w) { pc = Pc.exec_transaction Stage.crediting x }) l,
  )
  move-low (Pc.exec_transaction (Stage.credited read) x) e h d = ground (
    arith,
    inv.low d,
    inv.fresh w l,
    inv.fits w,
    +ℤ_parts read (pos x.amount),
    sum_upto-update debits nworkers s.workers w
        (record (s.workers w) { pc = Pc.exec_transaction Stage.unlocking_snd x }) l,
  )
  move-low (Pc.exec_transaction g x) e h d = grind (arith, inv.low d, sum_upto-update)
  move-low Pc.returned e h d = ground (arith, inv.low d)

-- One step of one thread, whatever the outside decides.
pub step-Inv :
    {p : Program} {s t : Bank} (w : ℕ) (c : Choice) → Inv p s → step p s w c ≡ some t → Inv p t
unfolding step
step-Inv {p} {s} {t} w c inv h = record {
  fits = move-Fits inv w c moved.0 (s.workers w).pc refl moved.1;
  fst_held = move-fst_held inv w c moved.0 (s.workers w).pc refl moved.1;
  snd_held = move-snd_held inv w c moved.0 (s.workers w).pc refl moved.1;
  owned = move-owned inv w c moved.0 (s.workers w).pc refl moved.1;
  fresh = move-IsFresh inv w c moved.0 (s.workers w).pc refl moved.1;
  kept = move-kept inv w c moved.0 (s.workers w).pc refl moved.1;
  low = move-low inv w c moved.0 (s.workers w).pc refl moved.1;
}
  where
    moved : (w < nworkers) × (move p s w c (s.workers w).pc ≡ some t)
    moved = ground arith

-- The states that a scheduler and the outside can bring about, with the number of steps.
pub data Reach (p : Program) : ℕ → Bank → Type 0 where
  begin : Reach p 0 start
  turn :
      {n : ℕ} {s t : Bank} (w : ℕ) (c : Choice)
      → Reach p n s
      → step p s w c ≡ some t
      → Reach p (suc n) t

pub Reach-Inv : {p : Program} {n : ℕ} {s : Bank} → Reach p n s → Inv p s
Reach-Inv {p} begin = Inv-start p
Reach-Inv (turn w c r h) = step-Inv w c (Reach-Inv r) h
