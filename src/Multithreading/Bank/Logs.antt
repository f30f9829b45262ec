-- ===== src/Multithreading/Bank/Logs.antt =====
-- What a run of the bank did: the transfers that the threads drew with `rand`, and those that they
-- posted.
use operating_systems_and_ne.Base.{
  ℕ, suc, ◌+◌, ◌%◌, ◌≤◌, ◌<◌, ◌≡◌, refl, ap, ◌∙◌, Option, none, some, List, [], ◌∷◌, ◌++◌, length,
  length-append, arith, sum_upto, sum_upto-update, sum_upto-eq-zero, sym,
}
use operating_systems_and_ne.Multithreading.Errors.{exit_on_error}
use operating_systems_and_ne.Multithreading.Bank.{
  Program, Bank, Transfer, Pc, Stage, Choice, niter, nworkers, transact, move, step, start,
}
use operating_systems_and_ne.Multithreading.Bank.Invariant.{has_debited, debits, Fits, Inv}
use operating_systems_and_ne.Multithreading.Bank.Reachable.{Reach, begin, turn, Reach-Inv}
use operating_systems_and_ne.Multithreading.Bank.Ledger.{by}
use operating_systems_and_ne.Multithreading.Bank.Postings.{posting}

-- The transfer that the step from `loop_head` into `exec_transaction` draws: what the two calls of
-- `rand` give, reduced.
abbrev pub drawing : Pc → Pc → Choice → Option Transfer
drawing Pc.loop_head (Pc.exec_transaction g x) c =
    some (record { from = c.rand_from % 2; amount = c.rand_amount % 10 })
drawing q r c = none

abbrev pub noted : ℕ → Option Transfer → List (ℕ × Transfer) → List (ℕ × Transfer)
noted w none xs = xs
noted w (some x) xs = (w, x) ∷ xs

pub draws : {p : Program} {n : ℕ} {s : Bank} → Reach p n s → List (ℕ × Transfer)
draws begin = []
draws (turn {s = s} {t = t} w c r h) =
    noted w (drawing (s.workers w).pc (t.workers w).pc c) (draws r)

unfoldable pub postings : {p : Program} {n : ℕ} {s : Bank} → Reach p n s → List (ℕ × Transfer)
postings begin = []
postings (turn {s = s} w c r h) = noted w (posting (s.workers w).pc) (postings r)

-- The transfer that a thread has drawn and not posted yet.
abbrev pub pending : Pc → List Transfer
pending (Pc.exec_transaction Stage.locking_fst x) = x ∷ []
pending (Pc.exec_transaction Stage.locking_snd x) = x ∷ []
pending (Pc.exec_transaction Stage.debiting x) = x ∷ []
pending (Pc.exec_transaction (Stage.debited read) x) = x ∷ []
pending q = []

-- Thread `v` has drawn what it has posted and what is pending, and its counter says how many it
-- has posted.
abbrev pub Agrees : Bank → ℕ → List (ℕ × Transfer) → List (ℕ × Transfer) → Type 0
Agrees s v drawn posted_now =
    (by v drawn ≡ pending (s.workers v).pc ++ by v posted_now)
    × (length (by v posted_now) ≡ debits (s.workers v))

module _ {p : Program} {s t : Bank} (inv : Inv p s) (w : ℕ) (c : Choice) (l : w < nworkers) where
  move-Agrees :
      (q : Pc)
      → (s.workers w).pc ≡ q
      → move p s w c q ≡ some t
      → (v : ℕ) (drawn posted_now : List (ℕ × Transfer)) → Agrees s v drawn posted_now
      → Agrees t v (noted w (drawing q (t.workers w).pc c) drawn) (noted w (posting q) posted_now)
  unfolding move exit_on_error transact
  move-Agrees Pc.loop_head e h v drawn posted_now a = ground arith
  move-Agrees (Pc.exec_transaction (Stage.debited read) x) e h v drawn posted_now a = ground arith
  move-Agrees (Pc.exec_transaction g x) e h v drawn posted_now a = ground arith
  move-Agrees Pc.returned e h v drawn posted_now a = ground arith

  move-debits :
      (q : Pc)
      → (s.workers w).pc ≡ q
      → move p s w c q ≡ some t
      → (posted_now : List (ℕ × Transfer)) → length posted_now ≡ sum_upto debits nworkers s.workers
      → length (noted w (posting q) posted_now) ≡ sum_upto debits nworkers t.workers
  unfolding move exit_on_error transact
  move-debits (Pc.exec_transaction (Stage.debited read) x) e h posted_now k =
      ap suc k ∙ grind (arith, sum_upto-update)
  move-debits Pc.loop_head e h posted_now k = k ∙ grind (arith, sum_upto-update)
  move-debits (Pc.exec_transaction g x) e h posted_now k = k ∙ grind (arith, sum_upto-update)
  move-debits Pc.returned e h posted_now k = ground arith

pub step-move :
    (p : Program) (s t : Bank) (w : ℕ) (c : Choice)
    → step p s w c ≡ some t
    → (w < nworkers) × (move p s w c (s.workers w).pc ≡ some t)
unfolding step
step-move p s t w c h = ground arith

-- In every run the threads have drawn and posted the same transfers in the same order, but for the
-- pending ones.
pub Reach-Agrees :
    {p : Program} {k : ℕ} {s : Bank} (r : Reach p k s) (v : ℕ) → Agrees s v (draws r) (postings r)
unfolding draws postings
Reach-Agrees begin v = (refl, refl)
Reach-Agrees {p} (turn {s = s} {t = t} w c r h) v =
    let (l, moved) = step-move p s t w c h in
    move-Agrees (Reach-Inv r) w c l (s.workers w).pc refl moved v (draws r) (postings r)
      (Reach-Agrees r v)

pub length-postings :
    {p : Program} {k : ℕ} {s : Bank} (r : Reach p k s)
    → length (postings r) ≡ sum_upto debits nworkers s.workers
unfolding postings
length-postings begin = sym (sum_upto-eq-zero debits nworkers start.workers (λ w l. refl))
length-postings {p} (turn {s = s} {t = t} w c r h) =
    let (l, moved) = step-move p s t w c h in
    move-debits (Reach-Inv r) w c l (s.workers w).pc refl moved (postings r) (length-postings r)

length-pending : (i : ℕ) (q : Pc) → Fits i q → length (pending q) + (i + has_debited q) ≤ niter
length-pending i (Pc.exec_transaction (Stage.debited read) x) f = omega (arith, f.0)
length-pending i (Pc.exec_transaction g x) f = ground (arith, f.0)
length-pending i Pc.loop_head f = omega (arith, f)
length-pending i Pc.returned f = omega (arith, f)

-- A thread draws at most `niter` transfers.
pub length-draws_le :
    {p : Program} {k : ℕ} {s : Bank} (r : Reach p k s) (v : ℕ) → length (by v (draws r)) ≤ niter
length-draws_le {s = s} r v =
    let (same, counted) = Reach-Agrees r v in
    rw same (
      omega (
        arith,
        length-append (pending (s.workers v).pc) (by v (postings r)),
        counted,
        length-pending (s.workers v).i (s.workers v).pc ((Reach-Inv r).fits v),
      ))
