-- ===== src/Multithreading/Main/Calls.antt =====
-- The order of the calls in `main`, and what one of them does.
use operating_systems_and_ne.Base.{
  ℕ, zero, suc, ◌<◌, ◌≡◌, refl, Bool, true, false, ◌||◌, none, some, List, [], ◌∷◌, ◌==◌, arith,
  Bool-cases, Option-cases, ℕ_discrete, ap, sym, ◌⊎◌, length, inl, inr,
}
use operating_systems_and_ne.Multithreading.Errors.{exit_on_error, exit_failure}
use operating_systems_and_ne.Multithreading.Main.{Call, Threads, Process, Turn, call, process_step}

-- Whether `main` has yet to join thread `w`.
abbrev pub pending : ℕ → List Call → Bool
pending w [] = false
pending w (Call.thread_join v ∷ rest) = w == v || pending w rest
pending w (c ∷ rest) = pending w rest

-- Whether `main` has yet to create thread `w`.
abbrev pub creating : ℕ → List Call → Bool
creating w [] = false
creating w (Call.thread_create v ∷ rest) = w == v || creating w rest
creating w (c ∷ rest) = creating w rest

abbrev pub is_join : Call → Bool
is_join (Call.thread_join thread) = true
is_join c = false

-- The calls that need the threads to be over.
abbrev pub is_last : Call → Bool
is_last (Call.mutex_destroy mutex) = true
is_last Call.sem_destroy = true
is_last Call.print = true
is_last c = false

-- Nothing is joined after the last calls have begun, and nothing is created after the joins have.
abbrev pub Orderly : List Call → Type 0
Orderly [] = Unit
Orderly (c ∷ rest) =
    (is_last c ≡ true → (w : ℕ) → pending w rest ≡ false)
    × (is_join c ≡ true → (w : ℕ) → creating w rest ≡ false)
    × Orderly rest

-- A last call joins nothing itself.
pub pending-last :
    (w : ℕ) (c : Call) (rest : List Call) → is_last c ≡ true → pending w (c ∷ rest) ≡ pending w rest
pending-last w (Call.thread_join v) rest e = absurd (cc)
pending-last w c rest e = refl

-- How a call of `main` comes out.
pub data Called (P : Threads) (s : Process P) (c : Call) (rest : List Call) (t : Process P)
    : Type 0 where
  fails : t ≡ record s { ended = some exit_failure } → Called P s c rest t
  goes_on :
      t.threads ≡ s.threads
      → t.ended ≡ s.ended
      → t.todo ≡ rest
      → ((w : ℕ) → c ≡ Call.thread_join w → P.returned s.threads w ≡ true)
      → ((w : ℕ) → s.created w ≡ true → t.created w ≡ true)
      → ((w : ℕ) → c ≡ Call.thread_create w → t.created w ≡ true)
      → Called P s c rest t

pub call-Called :
    (P : Threads) (s t : Process P) (err : ℕ) (c : Call) (rest : List Call)
    → call P s err (c ∷ rest) ≡ some t
    → Called P s c rest t
unfolding call exit_on_error
call-Called P s t zero (Call.thread_join w) rest h = elim (Bool-cases (P.returned s.threads w)) [
  | inl e ↦
      goes_on (ground (arith, e)) (ground (arith, e)) (ground (arith, e)) (λ v f. ground (arith, e))
        (λ v f. ground (arith, e, f)) (λ v f. cc)
  | inr e ↦ absurd (ground (arith, e))
]
call-Called P s t (suc err) (Call.thread_join w) rest h = fails (ground arith)
call-Called P s t err Call.print rest h =
    goes_on (ground arith) (ground arith) (ground arith) (λ v f. cc) (λ v f. ground (arith, f))
      (λ v f. cc)
call-Called P s t err Call.dispatch_semaphore_create rest h =
    goes_on (ground arith) (ground arith) (ground arith) (λ v f. cc) (λ v f. ground (arith, f))
      (λ v f. cc)
call-Called P s t zero (Call.thread_create w) rest h =
    goes_on (ground arith) (ground arith) (ground arith) (λ v f. cc) (λ v f. ground (arith, f))
      (λ v f. ground (arith, f))
call-Called P s t zero c rest h =
    goes_on (ground arith) (ground arith) (ground arith) (λ v f. cc) (λ v f. ground (arith, f))
      (λ v f. cc)
call-Called P s t (suc err) c rest h = fails (ground arith)

pub pending-cons :
    (w : ℕ) (c : Call) (rest : List Call)
    → pending w rest ≡ false
    → (pending w (c ∷ rest) ≡ false) ⊎ (c ≡ Call.thread_join w)
pending-cons w (Call.thread_join v) rest e = elim (ℕ_discrete w v) [
  | yes p ↦ inr (ap Call.thread_join (sym p))
  | no p ↦ inl (ground (arith, e, p))
]
pending-cons w c rest e = inl e

pub pending-tail :
    (w : ℕ) (c : Call) (rest : List Call) → pending w rest ≡ true → pending w (c ∷ rest) ≡ true
pending-tail w (Call.thread_join v) rest e = ground (arith, e)
pending-tail w c rest e = e

pub creating-cons :
    (w : ℕ) (c : Call) (rest : List Call)
    → creating w rest ≡ false
    → (creating w (c ∷ rest) ≡ false) ⊎ (c ≡ Call.thread_create w)
creating-cons w (Call.thread_create v) rest e = elim (ℕ_discrete w v) [
  | yes p ↦ inr (ap Call.thread_create (sym p))
  | no p ↦ inl (ground (arith, e, p))
]
creating-cons w c rest e = inl e

-- A step of `main` leaves the threads as they are.
pub call-threads :
    {P : Threads} (s t : Process P) (err : ℕ) (l : List Call)
    → call P s err l ≡ some t
    → t.threads ≡ s.threads
unfolding call
call-threads s t err [] h = ground arith
call-threads {P} s t err (c ∷ rest) h = elim (call-Called P s t err c rest h) [
  | fails e ↦ ap (λ (p : Process P). p.threads) e
  | goes_on same running left join created create ↦ same
]

-- A step of a process is one of `main` or one of a thread.
pub data Stepped {P : Threads} (s t : Process P) : Type 0 where
  main_stepped : (err : ℕ) → s.ended ≡ none → call P s err s.todo ≡ some t → Stepped s t
  thread_stepped :
      (w : ℕ) (c : P.Choice)
      → s.created w ≡ true
      → P.step s.threads w c ≡ some t.threads
      → t.todo ≡ s.todo
      → t.output ≡ s.output
      → t.ended ≡ s.ended
      → Stepped s t

pub process_step-Stepped :
    {P : Threads} (s t : Process P) (u : Turn P) → process_step P s u ≡ some t → Stepped s t
unfolding process_step
process_step-Stepped s t (Turn.of_main err) h = main_stepped err (ground arith) (ground arith)
process_step-Stepped {P} s t (Turn.of_thread w c) h = elim (Option-cases (P.step s.threads w c)) [
  | inl e ↦ absurd (ground arith)
  | inr (u, e) ↦
      thread_stepped w c (ground (arith, e)) (ground (arith, e)) (ground (arith, e))
        (ground (arith, e)) (ground (arith, e))
]

-- How many more steps `main` can make.
abbrev pub calls_left : {P : Threads} → Process P → ℕ
calls_left s = elim s.ended [ none ↦ suc (length s.todo) | some code ↦ 0 ]

pub call-calls_left :
    {P : Threads} (s t : Process P) (err : ℕ) (l : List Call)
    → s.todo ≡ l
    → s.ended ≡ none
    → call P s err l ≡ some t
    → calls_left t < calls_left s
unfolding call
call-calls_left s t err [] e r h = ground arith
call-calls_left {P} s t err (c ∷ rest) e r h = elim (call-Called P s t err c rest h) [
  | fails f ↦ ground arith
  | goes_on same running left join created create ↦
      ground (arith, ap (λ l. length l) left, ap (λ l. length l) e)
]
