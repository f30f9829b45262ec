-- ===== src/Multithreading/Main/Progress.antt =====
-- How far a process gets: what its threads keep, how many steps it can make and where it waits.
use operating_systems_and_ne.Base.{
  ℕ, suc, ◌<◌, ◌≡◌, refl, true, false, none, some, List, [], ◌∷◌, arith, Option-cases, ap, sym, ◌∙◌,
  ◌+◌, ◌≤◌, length, inl, inr,
}
use mathlib.Core.Path.{subst}
use operating_systems_and_ne.Multithreading.Errors.{exit_on_error}
use operating_systems_and_ne.Multithreading.Main.{
  Call, Threads, Process, Turn, is_running, call, process_step, launch, Run, begin, turn,
}
use operating_systems_and_ne.Multithreading.Main.Calls.{
  pending, creating, Orderly, call-threads, main_stepped, thread_stepped, process_step-Stepped,
  calls_left, call-calls_left,
}
use operating_systems_and_ne.Multithreading.Main.Order.{Sound}

-- What the steps of the threads keep, the process keeps.
pub lifted {ℓ} :
    {P : Threads} (Q : P.State → Type ℓ) {start : P.State} {calls : List Call} {k : ℕ}
    {s : Process P}
    → Q start
    → ((s t : P.State) (w : ℕ) (c : P.Choice) → Q s → P.step s w c ≡ some t → Q t)
    → Run P (launch P start calls) k s
    → Q s.threads
lifted Q q keeps begin = q
lifted Q q keeps (turn {s = s} {t} u r h) =
    let before = lifted Q q keeps r in
    elim (process_step-Stepped s t u h) [
      | main_stepped err none_ended g ↦ subst Q (sym (call-threads s t err s.todo g)) before
      | thread_stepped w c l g todo output ended ↦ keeps s.threads t.threads w c before g
    ]

-- Where `main` waits, if its calls succeed: only at a join, for a thread that has not returned.
pub main_waits :
    {P : Threads} {n : ℕ} {s : Process P}
    → Sound P n s
    → call P s 0 s.todo ≡ none
    → (w : ℕ) × (w < n) × (P.returned s.threads w ≡ false) × ((v : ℕ) → v < n → s.created v ≡ true)
unfolding call exit_on_error
main_waits {P} {n} {s} i h = go s.todo refl h
  where
    go :
        (l : List Call)
        → s.todo ≡ l
        → call P s 0 l ≡ none
        → (w : ℕ) × (w < n)
          × (P.returned s.threads w ≡ false)
          × ((v : ℕ) → v < n → s.created v ≡ true)
    go (Call.thread_join w ∷ rest) e h = (
      w,
      i.targets w (ap (pending w) e ∙ ground arith),
      ground arith,
      λ v l. i.exists v l (ap (creating v) e ∙ (subst Orderly e i.orderly).1 refl v),
    )
    go [] e h = absurd (ground arith)
    go (c ∷ rest) e h = absurd (ground arith)

-- The steps of a process are those of its threads and at most one for each call of `main`, and the
-- return.
pub counted {ℓ} :
    {P : Threads} (Q : ℕ → P.State → Type ℓ) {start : P.State} {calls : List Call} {k : ℕ}
    {s : Process P}
    → Q 0 start
    → ((n : ℕ) (s t : P.State) (w : ℕ) (c : P.Choice) → Q n s → P.step s w c ≡ some t → Q (suc n) t)
    → Run P (launch P start calls) k s
    → (n : ℕ) × Q n s.threads × (k + calls_left s ≤ n + suc (length calls))
counted Q q keeps begin = (0, q, omega arith)
counted {P = P} Q q keeps (turn {s = s} {t} u r h) =
    let (n, before, bound) = counted Q q keeps r in
    elim (process_step-Stepped s t u h) [
      | main_stepped err e g ↦ (
        n,
        subst (Q n) (sym (call-threads s t err s.todo g)) before,
        omega (arith, bound, call-calls_left s t err s.todo refl e g),
      )
      | thread_stepped w c l g todo output ended ↦ (
        suc n,
        keeps n s.threads t.threads w c before g,
        ground (arith, bound, ap (λ l. length l) todo),
      )
    ]

-- While the process is not over, a turn that cannot be made is one of `main` that waits, or of a
-- thread that waits.
module _ {P : Threads} (s : Process P) (running : is_running P s ≡ true) where
  pub main_blocked : process_step P s (Turn.of_main 0) ≡ none → call P s 0 s.todo ≡ none
  unfolding process_step
  main_blocked h = ground (arith, running)

  pub thread_blocked :
      (w : ℕ) (c : P.Choice)
      → s.created w ≡ true
      → process_step P s (Turn.of_thread w c) ≡ none
      → P.step s.threads w c ≡ none
  unfolding process_step
  thread_blocked w c made h = elim (Option-cases (P.step s.threads w c)) [
    | inl e ↦ e
    | inr (t, e) ↦ absurd (ground (arith, running, made, e))
  ]
