-- ===== src/Multithreading/Main/Schedules.antt =====
-- Processes under a given schedule. A turn that cannot be made is passed over.
use operating_systems_and_ne.Base.{
  ℕ, zero, suc, Option, none, some, List, [], ◌∷◌, Option-cases, inl, inr,
}
use operating_systems_and_ne.Multithreading.Main.{Threads, Process, Turn, process_step, Run, turn}

abbrev pub moved_or : {P : Threads} → Process P → Option (Process P) → Process P
moved_or s none = s
moved_or s (some t) = t

abbrev pub after : (P : Threads) → List (Turn P) → Process P → Process P
after P [] s = s
after P (u ∷ us) s = after P us (moved_or s (process_step P s u))

pub Run-after :
    (P : Threads) {start : Process P} (us : List (Turn P)) {k : ℕ} {s : Process P}
    → Run P start k s
    → (n : ℕ) × Run P start n (after P us s)
Run-after P [] r = (_, r)
Run-after P (u ∷ us) {s = s} r = elim (Option-cases (process_step P s u)) [
  | inl e ↦ rw (e, after) (Run-after P us r)
  | inr (t, e) ↦ rw (e, after) (Run-after P us (turn u r e))
]

-- `main` makes its next `n` calls, and all of them succeed.
abbrev pub main_turns : (P : Threads) → ℕ → List (Turn P)
main_turns P zero = []
main_turns P (suc n) = Turn.of_main 0 ∷ main_turns P n

-- The thread makes `n` steps.
abbrev pub thread_turns : (P : Threads) → ℕ → P.Choice → ℕ → List (Turn P)
thread_turns P w c zero = []
thread_turns P w c (suc n) = Turn.of_thread w c ∷ thread_turns P w c n
