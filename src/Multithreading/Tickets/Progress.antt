-- ===== src/Multithreading/Tickets/Progress.antt =====
-- mutex.c from a number that is not negative: nothing is sold twice or lost, and it ends.
use operating_systems_and_ne.Base.{
  ℕ, ◌⊎◌, ◌+◌, ◌-◌, ◌*◌, ◌≤◌, ◌<◌, ◌≡◌, refl, inl, inr, true, none, some, arith, Option-cases,
  sum_upto, sum_upto-update, sum_upto-le-mul,
}
use operating_systems_and_ne.Base.Int.{pos, pos_part, -ℤ_parts}
use operating_systems_and_ne.Multithreading.Tickets.{Sale, Pc, nthreads, start, move, step}
use operating_systems_and_ne.Multithreading.Tickets.Invariant.{
  Inv, is_sale, Reach, begin, turn, Reach-Inv,
}

module _ {number : ℕ} {s t : Sale} (inv : Inv number s) (w : ℕ) (l : w < nthreads) where
  move-sale :
      (q : Pc)
      → s.pc w ≡ q
      → move s w q ≡ some t
      → pos_part t.ntickets + is_sale q ≡ pos_part s.ntickets
  unfolding move
  move-sale (Pc.writing read) e h = ground (arith, inv.knows w l, -ℤ_parts read (pos 1))
  move-sale p e h = ground arith

step-sale :
    {number : ℕ} {s t : Sale} (w : ℕ)
    → Inv number s
    → step s w ≡ some t
    → pos_part t.ntickets + is_sale (s.pc w) ≡ pos_part s.ntickets
unfolding step
step-sale {s = s} {t} w inv h = move-sale inv w moved.0 (s.pc w) refl moved.1
  where
    moved : (w < nthreads) × (move s w (s.pc w) ≡ some t)
    moved = ground arith

sales-count :
    {number n k : ℕ} {s : Sale} → Reach (pos number) n k s → pos_part s.ntickets + k ≡ number
sales-count begin = omega arith
sales-count (turn w r h) = omega (arith, sales-count r, step-sale w (Reach-Inv r) h)

-- From a number that is not negative, no sale is lost in mutex.c and none is made twice: the
-- tickets that are left and the sales so far add up to the number, and at no time are fewer than
-- no tickets left.
pub sales_add_up :
    {number n k : ℕ} {s : Sale}
    → Reach (pos number) n k s
    → (s.ntickets ≡ pos (number - k)) × (k ≤ number)
sales_add_up r = ground (arith, sales-count r, (Reach-Inv r).nonneg)

abbrev steps_left : Pc → ℕ
steps_left Pc.locking = 7
steps_left Pc.first_test = 6
steps_left Pc.reading = 5
steps_left (Pc.writing _) = 4
steps_left (Pc.second_test true) = 9
steps_left (Pc.second_test _) = 2
steps_left Pc.unlocking_to_break = 1
steps_left Pc.unlocking = 8
steps_left Pc.returned = 0

abbrev sale_steps : Sale → ℕ
sale_steps s = 16 * pos_part s.ntickets + sum_upto steps_left nthreads s.pc

module _ {number : ℕ} {s t : Sale} (inv : Inv number s) (w : ℕ) (l : w < nthreads) where
  move-steps : (q : Pc) → s.pc w ≡ q → move s w q ≡ some t → sale_steps t < sale_steps s
  unfolding move
  move-steps (Pc.writing read) e h =
      grind (arith, inv.knows w l, inv.nonneg, -ℤ_parts read (pos 1), sum_upto-update)
  move-steps p e h = grind (arith, inv.knows w l, inv.nonneg, sum_upto-update)

step-steps :
    {number : ℕ} {s t : Sale} (w : ℕ)
    → Inv number s
    → step s w ≡ some t
    → sale_steps t < sale_steps s
unfolding step
step-steps {s = s} {t} w inv h = move-steps inv w moved.0 (s.pc w) refl moved.1
  where
    moved : (w < nthreads) × (move s w (s.pc w) ≡ some t)
    moved = ground arith

Reach-steps :
    {number n k : ℕ} {s : Sale}
    → Reach (pos number) n k s
    → n + sale_steps s ≤ sale_steps (start (pos number))
Reach-steps begin = omega arith
Reach-steps (turn w r h) = omega (arith, Reach-steps r, step-steps w (Reach-Inv r) h)

-- From a number that is not negative, mutex.c stops whatever the scheduler does: no run has more
-- than 16 steps for each ticket and 7 for each thread.
pub tickets_run_bound :
    {number n k : ℕ} {s : Sale} → Reach (pos number) n k s → n ≤ 16 * number + 35
tickets_run_bound {number} r = omega (
  arith,
  Reach-steps r,
  sum_upto-le-mul steps_left nthreads 7 (start (pos number)).pc (λ i l. omega arith),
)

abbrev pub IsStuck : Sale → Type 0
IsStuck s = (w : ℕ) → w < nthreads → step s w ≡ none

move-waits :
    (s : Sale) (w : ℕ) (q : Pc)
    → move s w q ≡ none
    → ((q ≡ Pc.locking) × ((j : ℕ) × (s.mutex ≡ some j))) ⊎ (q ≡ Pc.returned)
unfolding move
move-waits s w Pc.locking h = elim (Option-cases s.mutex) [
  | inl free ↦ absurd (ground arith)
  | inr held ↦ inl (refl, held)
]
move-waits s w Pc.returned h = inr refl
move-waits s w q h = cc

-- From a number that is not negative, mutex.c cannot deadlock: in a reachable state in which no
-- thread can move all threads have returned, and exactly all the tickets have been sold.
pub stuck-sold_out :
    {number n k : ℕ} {s : Sale}
    → Reach (pos number) n k s
    → IsStuck s
    → ((w : ℕ) → w < nthreads → s.pc w ≡ Pc.returned) × (s.ntickets ≡ pos 0) × (k ≡ number)
unfolding step
stuck-sold_out {number} {s = s} r stuck =
    (all, ground (arith, inv.knows 0, all 0), ground (arith, inv.knows 0, all 0, sales-count r))
  where
    inv : Inv number s
    inv = Reach-Inv r

    waits :
        (w : ℕ)
        → w < nthreads
        → ((s.pc w ≡ Pc.locking) × ((j : ℕ) × (s.mutex ≡ some j))) ⊎ (s.pc w ≡ Pc.returned)
    waits w l = move-waits s w (s.pc w) (ground (arith, stuck w l))

    all : (w : ℕ) → w < nthreads → s.pc w ≡ Pc.returned
    all w l = elim (waits w l) [
      | inl (e, (j, held)) ↦ ground (arith, inv.owned j held, waits j)
      | inr e ↦ e
    ]
