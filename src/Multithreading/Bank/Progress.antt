-- ===== src/Multithreading/Bank/Progress.antt =====
-- When no thread can move: in ordered_lock.c only at the end, in deadlock.c also when each thread
-- has the mutex that the other one waits for.
use operating_systems_and_ne.Base.{
  ℕ, ◌-◌, ◌*◌, ◌<◌, ◌≡◌, ◌≢◌, ◌⊎◌, ◌↔◌, inl, inr, refl, true, none, some, arith, Option-cases,
  ℕ_discrete,
}
use operating_systems_and_ne.Base.Int.{pos}
use operating_systems_and_ne.Multithreading.Errors.{exit_on_error}
use operating_systems_and_ne.Multithreading.Bank.{
  Program, Bank, Pc, Stage, Transfer, Choice, niter, nworkers, ndeposits, initial_balance,
  sum_balances, transact, move, step, is_running, lock_order,
}
use operating_systems_and_ne.Multithreading.Bank.Safety.{money_kept}
use operating_systems_and_ne.Multithreading.Bank.Invariant.{has_snd, Inv, lock_order-cases}
use operating_systems_and_ne.Multithreading.Bank.Reachable.{Reach, Reach-Inv}

-- No thread can move, although every call that returns succeeds.
abbrev pub IsStuck : Program → Bank → Type 0
IsStuck p s = (w : ℕ) (c : Choice) → w < nworkers → c.err ≡ 0 → step p s w c ≡ none

abbrev pub AllReturned : Bank → Type 0
AllReturned s = (w : ℕ) → w < nworkers → (s.workers w).pc ≡ Pc.returned

-- The two threads have locked the deposit that they transfer from, and want the other one.
abbrev pub HaveCrossed : Bank → Type 0
HaveCrossed s =
    (x y : Transfer) × ((s.workers 0).pc ≡ Pc.exec_transaction Stage.locking_snd x)
    × ((s.workers 1).pc ≡ Pc.exec_transaction Stage.locking_snd y)
    × (x.from ≢ y.from)

abbrev no_error : Choice
no_error = record { err = 0; rand_amount = 0; rand_from = 0 }

-- What a thread waits for.
abbrev Waits : Program → Bank → Pc → Type 0
Waits p s (Pc.exec_transaction Stage.locking_fst x) =
    (j : ℕ) × ((s.deposits (lock_order p x).0).mutex ≡ some j)
Waits p s (Pc.exec_transaction Stage.locking_snd x) =
    (j : ℕ) × ((s.deposits (lock_order p x).1).mutex ≡ some j)
Waits p s Pc.returned = Unit
Waits _ _ _ = ⊥

move-Waits : (p : Program) (s : Bank) (w : ℕ) (q : Pc) → move p s w no_error q ≡ none → Waits p s q
unfolding move exit_on_error transact
move-Waits p s w Pc.loop_head h = ground arith
move-Waits p s w (Pc.exec_transaction Stage.locking_fst x) h =
    elim (Option-cases (s.deposits (lock_order p x).0).mutex) [
      | inl free ↦ absurd (ground arith)
      | inr held ↦ held
    ]
move-Waits p s w (Pc.exec_transaction Stage.locking_snd x) h =
    elim (Option-cases (s.deposits (lock_order p x).1).mutex) [
      | inl free ↦ absurd (ground arith)
      | inr held ↦ held
    ]
move-Waits p s w (Pc.exec_transaction g x) h = ground arith
move-Waits p s w Pc.returned h = tt

module _ {p : Program} {s : Bank} (inv : Inv p s) (running : is_running s ≡ true)
    (stuck : IsStuck p s) where
  waits : (w : ℕ) → w < nworkers → Waits p s (s.workers w).pc
  unfolding step
  waits w l = move-Waits p s w (s.workers w).pc (ground (arith, stuck w no_error l))

  no_transfer : (w : ℕ) → w < nworkers → has_snd (s.workers w).pc ≡ true → ⊥
  no_transfer w l e = ground (arith, waits w l)

  -- A held mutex is held by a thread that waits for its second one.
  holder :
      (d j : ℕ)
      → (s.deposits d).mutex ≡ some j
      → (x : Transfer) × (j < nworkers)
        × ((s.workers j).pc ≡ Pc.exec_transaction Stage.locking_snd x)
        × ((lock_order p x).0 ≡ d)
  holder d j e = settle (s.workers j).pc refl
    where
      settle :
          (q : Pc)
          → (s.workers j).pc ≡ q
          → (x : Transfer) × (j < nworkers)
            × ((s.workers j).pc ≡ Pc.exec_transaction Stage.locking_snd x)
            × ((lock_order p x).0 ≡ d)
      settle (Pc.exec_transaction Stage.locking_snd x) e' =
          (x, ground (arith, inv.owned d j e), e', ground (arith, inv.owned d j e))
      settle q e' = absurd (ground (arith, inv.owned d j e, waits j, no_transfer j))

  snd_owner :
      (j : ℕ) (y : Transfer)
      → j < nworkers
      → (s.workers j).pc ≡ Pc.exec_transaction Stage.locking_snd y
      → (k : ℕ) × ((s.deposits (lock_order p y).1).mutex ≡ some k)
  snd_owner j y l e = rw e at (waits j l)

  -- Each thread has returned or has one mutex: for a thread that waits for its first mutex there
  -- would have to be two others.
  places :
      (w : ℕ)
      → w < nworkers
      → ((s.workers w).pc ≡ Pc.returned)
        ⊎ ((x : Transfer) × ((s.workers w).pc ≡ Pc.exec_transaction Stage.locking_snd x))
  places w l = settle (s.workers w).pc refl (waits w l)
    where
      third :
          (x : Transfer)
          → (s.workers w).pc ≡ Pc.exec_transaction Stage.locking_fst x
          → (j : ℕ) → (s.deposits (lock_order p x).0).mutex ≡ some j
          → ⊥
      third x e j held =
          let (y, lj, at_j, first_j) = holder (lock_order p x).0 j held in
          let (k, held') = snd_owner j y lj at_j in
          let (z, lk, at_k, first_k) = holder (lock_order p y).1 k held' in
          ground (arith, lock_order-cases p y, inv.fits j)

      settle :
          (q : Pc)
          → (s.workers w).pc ≡ q
          → Waits p s q
          → ((s.workers w).pc ≡ Pc.returned)
            ⊎ ((x : Transfer) × ((s.workers w).pc ≡ Pc.exec_transaction Stage.locking_snd x))
      settle (Pc.exec_transaction Stage.locking_fst x) e (j, held) = absurd (third x e j held)
      settle (Pc.exec_transaction Stage.locking_snd x) e h = inr (x, e)
      settle Pc.returned e h = inl e
      settle q e h = absurd h

lock_order-ordered :
    (x : Transfer) → x.from < ndeposits → lock_order Program.ordered_lock x ≡ (0, 1)
unfolding lock_order
lock_order-ordered x l = ground arith

ordered_AllReturned :
    {s : Bank}
    → Inv Program.ordered_lock s
    → is_running s ≡ true
    → IsStuck Program.ordered_lock s
    → AllReturned s
ordered_AllReturned inv running stuck w l = elim (places inv running stuck w l) [
  | inl e ↦ e
  | inr (x, e) ↦
      let (k, held) = snd_owner inv running stuck w x l e in
      let (z, lk, at_k, first_k) =
        holder inv running stuck (lock_order Program.ordered_lock x).1 k held in
      absurd (ground (arith, lock_order-ordered x, lock_order-ordered z, inv.fits w, inv.fits k))
]

-- ordered_lock.c cannot deadlock: in a state that it can reach while it runs, and in which no
-- thread can move if the calls succeed, both threads have returned, each after all its
-- iterations, and the balances add up to what the deposits started with.
pub ordered_stuck-AllReturned :
    {n : ℕ} {s : Bank}
    → Reach Program.ordered_lock n s
    → is_running s ≡ true
    → IsStuck Program.ordered_lock s
    → AllReturned s
      × ((w : ℕ) → w < nworkers → (s.workers w).i ≡ niter)
      × (sum_balances s.deposits ndeposits ≡ pos (ndeposits * initial_balance))
ordered_stuck-AllReturned {s = s} r running stuck = (
  all,
  (λ w l. ground (arith, (Reach-Inv r).fits w, all w l)),
  money_kept r (λ w l. ground (arith, all w l)),
)
  where
    all : AllReturned s
    all = ordered_AllReturned (Reach-Inv r) running stuck

-- A state that deadlock.c can reach while it runs is one in which no thread can move exactly when
-- both threads have returned, or each has locked the deposit that it transfers from and these are
-- two different deposits.
pub deadlock-IsStuck_iff :
    {n : ℕ} {s : Bank}
    → Reach Program.deadlock n s
    → is_running s ≡ true
    → IsStuck Program.deadlock s ↔ (AllReturned s ⊎ HaveCrossed s)
unfolding step move transact exit_on_error lock_order
deadlock-IsStuck_iff {s = s} r running = (ends, blocked)
  where
    inv : Inv Program.deadlock s
    inv = Reach-Inv r

    crossed :
        (w : ℕ) (x : Transfer)
        → IsStuck Program.deadlock s
        → w < nworkers
        → (s.workers w).pc ≡ Pc.exec_transaction Stage.locking_snd x
        → HaveCrossed s
    crossed w x stuck l e =
        let (k, held) = snd_owner inv running stuck w x l e in
        let (z, lk, at_k, first_k) = holder inv running stuck (1 - x.from) k held in
        elim (ℕ_discrete w 0) [
          | yes p ↦ (x, z, ground arith, ground (arith, inv.fits w), ground (arith, inv.fits w))
          | no p ↦ (z, x, ground (arith, inv.fits w), ground arith, ground (arith, inv.fits w))
        ]

    ends : IsStuck Program.deadlock s → AllReturned s ⊎ HaveCrossed s
    ends stuck = elim (places inv running stuck 0 (omega arith)) [
      | inr (x, e) ↦ inr (crossed 0 x stuck (omega arith) e)
      | inl e ↦ elim (places inv running stuck 1 (omega arith)) [
        | inr (x, e') ↦ inr (crossed 1 x stuck (omega arith) e')
        | inl e' ↦ inl (λ w l. ground (arith, e, e'))
      ]
    ]

    blocked : AllReturned s ⊎ HaveCrossed s → IsStuck Program.deadlock s
    blocked (inl all) w c l e = ground (arith, all w l)
    blocked (inr (x, y, at_0, at_1, ne)) w c l e =
        ground (arith, inv.fst_held 0, inv.fst_held 1, inv.fits 0, inv.fits 1)
