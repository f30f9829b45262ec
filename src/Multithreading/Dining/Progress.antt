-- ===== src/Multithreading/Dining/Progress.antt =====
-- When no philosopher can move: never with the semaphore, and without it exactly in the circular
-- wait for the right forks.
use operating_systems_and_ne.Base.{
  ℕ, zero, suc, ◌+◌, ◌-◌, ◌%◌, ◌<◌, ◌≡◌, ◌⊎◌, ◌≢◌, ◌↔◌, refl, inl, inr, true, none, some, arith,
  Option-cases, dec_lt, sum_upto, sum_upto-eq-zero, sum_upto-eq-mul,
}
use operating_systems_and_ne.Multithreading.Errors.{exit_on_error}
use operating_systems_and_ne.Multithreading.Dining.{
  Program, Pc, Table, nphilosopher, phils, move, step, is_running,
}
use operating_systems_and_ne.Multithreading.Dining.Invariant.{
  has_right, permits_out, Inv, Reach, Reach-Inv,
}

-- Nobody can move, although every call that returns succeeds.
abbrev pub IsStuck : Program → Table → Type 0
IsStuck v s = (i : ℕ) → i < nphilosopher → step v s i 0 ≡ none

-- Every philosopher has the left fork and waits for the right one.
abbrev pub IsCircularWait : Table → Type 0
IsCircularWait s = (i : ℕ) → i < nphilosopher → s.pc i ≡ Pc.taking_right

-- What a philosopher waits for.
abbrev Waits : Table → ℕ → Pc → Type 0
Waits s i Pc.sem_waiting = s.sem ≡ 0
Waits s i Pc.taking_left = (j : ℕ) × (s.forks (phils i).left_fork ≡ some j)
Waits s i Pc.taking_right = (j : ℕ) × (s.forks (phils i).right_fork ≡ some j)
Waits _ _ _ = ⊥

move-Waits : (v : Program) (s : Table) (i : ℕ) (p : Pc) → move v s i 0 p ≡ none → Waits s i p
unfolding move exit_on_error
move-Waits Program.plain s i Pc.sem_waiting h = ground arith
move-Waits v s i Pc.sem_waiting h = ground arith
move-Waits v s i Pc.taking_left h = elim (Option-cases (s.forks (phils i).left_fork)) [
  | inl free ↦ absurd (ground arith)
  | inr held ↦ held
]
move-Waits v s i Pc.taking_right h = elim (Option-cases (s.forks (phils i).right_fork)) [
  | inl free ↦ absurd (ground arith)
  | inr held ↦ held
]
move-Waits v s i p h = ground arith

module _ {v : Program} {s : Table} (inv : Inv v s) (running : is_running s ≡ true)
    (stuck : IsStuck v s) where
  waits : (i : ℕ) → i < nphilosopher → Waits s i (s.pc i)
  unfolding step
  waits i l = move-Waits v s i (s.pc i) (ground (arith, stuck i l))

  no_meal : (i : ℕ) → i < nphilosopher → has_right (s.pc i) ≡ true → ⊥
  no_meal i l e = ground (arith, waits i l)

  -- Each one is at the semaphore, or has the left fork: the holder of a left fork that is taken
  -- by its neighbour would have both forks.
  waiting_places :
      (i : ℕ)
      → i < nphilosopher
      → (s.pc i ≡ Pc.taking_right) ⊎ ((s.pc i ≡ Pc.sem_waiting) × (s.sem ≡ 0))
  waiting_places i l = settle (s.pc i) refl (waits i l)
    where
      settle :
          (p : Pc)
          → s.pc i ≡ p
          → Waits s i p
          → (s.pc i ≡ Pc.taking_right) ⊎ ((s.pc i ≡ Pc.sem_waiting) × (s.sem ≡ 0))
      settle Pc.sem_waiting e w = inr (e, w)
      settle Pc.taking_left e (j, held) = ground (arith, inv.owned i j held, no_meal j)
      settle Pc.taking_right e w = inl e
      settle p e w = absurd w

  right_neighbour :
      (i : ℕ) → i < nphilosopher → s.pc i ≡ Pc.taking_right → s.pc ((i + 1) % 5) ≡ Pc.taking_right
  right_neighbour i l e = settle (s.pc i) e (waits i l)
    where
      settle : (p : Pc) → p ≡ Pc.taking_right → Waits s i p → s.pc ((i + 1) % 5) ≡ Pc.taking_right
      settle Pc.taking_right e' (j, held) = ground (
        arith,
        inv.owned ((i + 1) % 5) j held,
        no_meal j,
        waiting_places ((i + 1) % 5) (omega arith),
      )
      settle Pc.sem_waiting e' w = cc
      settle Pc.taking_left e' w = cc
      settle p e' w = absurd w

  all_right_of :
      (k i : ℕ) → i < nphilosopher → s.pc i ≡ Pc.taking_right → s.pc ((i + k) % 5) ≡ Pc.taking_right
  all_right_of zero i l e = let same : (i + 0) % 5 ≡ i = omega arith in rw same e
  all_right_of (suc k) i l e =
      let same : (i + suc k) % 5 ≡ ((i + 1) % 5 + k) % 5 = omega arith in
      rw same (all_right_of k ((i + 1) % 5) (omega arith) (right_neighbour i l e))

  -- One philosopher who waits for the right fork is enough for the whole circle.
  IsCircularWait-of : (i : ℕ) → i < nphilosopher → s.pc i ≡ Pc.taking_right → IsCircularWait s
  IsCircularWait-of i l e j m =
      let same : (i + (j + 5 - i)) % 5 ≡ j = omega arith in
      rw same at (all_right_of (j + 5 - i) i l e)

  nobody_in : (s.pc 0 ≡ Pc.sem_waiting) → (i : ℕ) → i < nphilosopher → s.pc i ≡ Pc.sem_waiting
  nobody_in out i l = elim (waiting_places i l) [
    | inl e ↦ let e0 = IsCircularWait-of i l e 0 (omega arith) in cc
    | inr e ↦ e.0
  ]

five_in : (s : Table) → IsCircularWait s → sum_upto permits_out nphilosopher s.pc ≡ 5
five_in s c = sum_upto-eq-mul permits_out nphilosopher 1 s.pc (λ i l. ground (arith, c i l))

stuck-cases :
    {v : Program} {s : Table}
    → Inv v s
    → is_running s ≡ true
    → IsStuck v s
    → IsCircularWait s
      ⊎ ((s.sem ≡ 0) × (sum_upto permits_out nphilosopher s.pc ≡ 0) × (s.pc 0 ≡ Pc.sem_waiting))
stuck-cases {s = s} inv running stuck = elim (waiting_places inv running stuck 0 (omega arith)) [
  | inl e ↦ inl (IsCircularWait-of inv running stuck 0 (omega arith) e)
  | inr e ↦ inr (
    e.1,
    sum_upto-eq-zero permits_out nphilosopher s.pc
        (λ i l. ground (arith, nobody_in inv running stuck e.0 i l)),
    e.0,
  )
]

not-IsStuck :
    {v : Program} {s : Table} → v ≢ Program.plain → Inv v s → is_running s ≡ true → ¬ IsStuck v s
not-IsStuck {v} {s} sem inv running stuck = elim (stuck-cases inv running stuck) [
  | inl c ↦ ground (arith, five_in s c, inv.permits)
  | inr e ↦ ground (arith, inv.permits)
]

find_step :
    (v : Program) (s : Table) (n : ℕ)
    → ((i : ℕ) × (t : Table) × (i < n) × (step v s i 0 ≡ some t))
      ⊎ ((i : ℕ) → i < n → step v s i 0 ≡ none)
find_step v s zero = inr (λ i l. absurd (omega arith))
find_step v s (suc n) = elim (find_step v s n) [
  | inl (i, t, l, e) ↦ inl (i, t, omega arith, e)
  | inr none_below ↦ elim (Option-cases (step v s n 0)) [
    | inl e ↦ inr (λ i l. elim (dec_lt i n) [
      | yes p ↦ none_below i p
      | no p ↦ let same : i ≡ n = omega arith in rw same e
    ])
    | inr (t, e) ↦ inl (n, t, omega arith, e)
  ]
]

-- With the semaphore of either solution there is no deadlock: in every state that the program can
-- reach while it runs, some philosopher can make a call that returns, if the calls succeed.
pub sem_no_deadlock :
    {v : Program} {s : Table}
    → v ≢ Program.plain
    → Reach v s
    → is_running s ≡ true
    → (i : ℕ) × (t : Table) × (i < nphilosopher) × (step v s i 0 ≡ some t)
sem_no_deadlock {v} {s} sem r running = elim (find_step v s nphilosopher) [
  | inl found ↦ found
  | inr stuck ↦ absurd (not-IsStuck sem (Reach-Inv r) running stuck)
]

-- Without the semaphore, a state that the program can reach while it runs is stuck exactly when
-- every philosopher has its left fork and waits for the right one.
pub plain-IsStuck_iff :
    {s : Table}
    → Reach Program.plain s
    → is_running s ≡ true
    → IsStuck Program.plain s ↔ IsCircularWait s
unfolding step move exit_on_error
plain-IsStuck_iff {s} r running = (circular, blocked)
  where
    inv : Inv Program.plain s
    inv = Reach-Inv r

    circular : IsStuck Program.plain s → IsCircularWait s
    circular stuck = elim (stuck-cases inv running stuck) [
      | inl c ↦ c
      | inr e ↦ ground (arith, inv.uses 0)
    ]

    blocked : IsCircularWait s → IsStuck Program.plain s
    blocked c i l = ground (arith, c i l, c ((i + 1) % 5), inv.left_held ((i + 1) % 5))
