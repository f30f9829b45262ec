-- ===== src/Multithreading/Dining/Invariant.antt =====
-- Who holds which fork, and how many permits are out: kept by every step of every philosopher.
use operating_systems_and_ne.Base.{
  ℕ, ◌+◌, ◌<◌, ◌≡◌, ◌⊎◌, refl, Bool, true, false, some, arith, sum_upto, sum_upto-update,
  sum_upto-eq-zero,
}
use operating_systems_and_ne.Multithreading.Errors.{exit_on_error}
use operating_systems_and_ne.Multithreading.Dining.{
  Program, Pc, Table, nphilosopher, phils, move, step, start,
}

abbrev pub has_left : Pc → Bool
has_left Pc.sem_waiting = false
has_left Pc.taking_left = false
has_left Pc.sem_posting = false
has_left _ = true

abbrev pub has_right : Pc → Bool
has_right Pc.eating = true
has_right Pc.putting_right = true
has_right _ = false

-- A permit is out from the return of the wait to the post.
abbrev pub permits_out : Pc → ℕ
permits_out Pc.sem_waiting = 0
permits_out _ = 1

-- dining_philosophers.c has no semaphore calls.
abbrev pub Uses : Program → Pc → Type 0
Uses Program.plain Pc.sem_waiting = ⊥
Uses Program.plain Pc.sem_posting = ⊥
Uses _ _ = Unit

abbrev pub Permits : Program → Table → Type 0
Permits Program.plain s = Unit
Permits _ s = s.sem + sum_upto permits_out nphilosopher s.pc ≡ 4

abbrev pub Owns : Table → ℕ → ℕ → Type 0
Owns s f j =
    (j < nphilosopher)
    × (((phils j).left_fork ≡ f) × (has_left (s.pc j) ≡ true)
        ⊎ ((phils j).right_fork ≡ f) × (has_right (s.pc j) ≡ true))

pub record Inv (v : Program) (s : Table) : Type 0 where
  pub left_held :
      (i : ℕ) → i < nphilosopher → has_left (s.pc i) ≡ true → s.forks (phils i).left_fork ≡ some i
  pub right_held :
      (i : ℕ) → i < nphilosopher → has_right (s.pc i) ≡ true → s.forks (phils i).right_fork ≡ some i
  pub owned : (f j : ℕ) → s.forks f ≡ some j → Owns s f j
  pub uses : (i : ℕ) → Uses v (s.pc i)
  pub permits : Permits v s

pub Inv-start : (v : Program) → Inv v (start v)
Inv-start Program.plain = record {
  left_held = λ i l e. cc;
  right_held = λ i l e. cc;
  owned = λ f j e. cc;
  uses = λ i. tt;
  permits = tt;
}
Inv-start v = record {
  left_held = λ i l e. cc;
  right_held = λ i l e. cc;
  owned = λ f j e. cc;
  uses = λ i. tt;
  permits = omega (arith, sum_upto-eq-zero permits_out nphilosopher (start v).pc (λ i l. refl));
}

module _ {v : Program} {s : Table} (inv : Inv v s) (i err : ℕ) (lt : i < nphilosopher) where
  move-left_held :
      (p : Pc) {t : Table}
      → s.pc i ≡ p
      → move v s i err p ≡ some t
      → (j : ℕ) → j < nphilosopher
      → has_left (t.pc j) ≡ true
      → t.forks (phils j).left_fork ≡ some j
  unfolding move exit_on_error
  move-left_held Pc.sem_waiting e h j l q = ground (arith, inv.left_held j l)
  move-left_held p e h j l q =
      ground (arith, inv.left_held j l, inv.left_held i lt, inv.right_held i lt)

  move-right_held :
      (p : Pc) {t : Table}
      → s.pc i ≡ p
      → move v s i err p ≡ some t
      → (j : ℕ) → j < nphilosopher
      → has_right (t.pc j) ≡ true
      → t.forks (phils j).right_fork ≡ some j
  unfolding move exit_on_error
  move-right_held Pc.sem_waiting e h j l q = ground (arith, inv.right_held j l)
  move-right_held p e h j l q =
      ground (arith, inv.right_held j l, inv.left_held i lt, inv.right_held i lt)

  move-owned :
      (p : Pc) {t : Table}
      → s.pc i ≡ p
      → move v s i err p ≡ some t
      → (f j : ℕ) → t.forks f ≡ some j
      → Owns t f j
  unfolding move exit_on_error
  move-owned Pc.sem_waiting e h f j q = ground (arith, inv.owned f j)
  move-owned p e h f j q = ground (arith, inv.owned f j)

  move-Uses :
      (p : Pc) {t : Table} → s.pc i ≡ p → move v s i err p ≡ some t → (j : ℕ) → Uses v (t.pc j)
  unfolding move exit_on_error
  move-Uses Pc.sem_waiting e h j = ground (arith, inv.uses j)
  move-Uses p e h j = ground (arith, inv.uses j)

  move-Permits : (p : Pc) {t : Table} → s.pc i ≡ p → move v s i err p ≡ some t → Permits v t
  unfolding move exit_on_error
  move-Permits Pc.sem_waiting e h =
      ground (arith, inv.permits, sum_upto-update permits_out nphilosopher s.pc i Pc.taking_left lt)
  move-Permits p e h = grind (arith, inv.permits, sum_upto-update)

-- One step of one philosopher, whatever the call returns.
pub step-Inv : {v : Program} {s t : Table} (i err : ℕ) → Inv v s → step v s i err ≡ some t → Inv v t
unfolding step
step-Inv {v} {s} {t} i err inv h = record {
  left_held = move-left_held inv i err moved.0 (s.pc i) refl moved.1;
  right_held = move-right_held inv i err moved.0 (s.pc i) refl moved.1;
  owned = move-owned inv i err moved.0 (s.pc i) refl moved.1;
  uses = move-Uses inv i err moved.0 (s.pc i) refl moved.1;
  permits = move-Permits inv i err moved.0 (s.pc i) refl moved.1;
}
  where
    moved : (i < nphilosopher) × (move v s i err (s.pc i) ≡ some t)
    moved = ground arith

-- The states that a scheduler can bring about.
pub data Reach (v : Program) : Table → Type 0 where
  begin : Reach v (start v)
  turn : {s t : Table} (i err : ℕ) → Reach v s → step v s i err ≡ some t → Reach v t

pub Reach-Inv : {v : Program} {s : Table} → Reach v s → Inv v s
Reach-Inv {v} begin = Inv-start v
Reach-Inv (turn i err r h) = step-Inv i err (Reach-Inv r) h
