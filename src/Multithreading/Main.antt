-- ===== src/Multithreading/Main.antt =====
-- `main` of the programs with threads: a list of calls, made one after the other beside the threads.
-- A program is what its threads do; a process is the threads, and what `main` has left to do. The
-- process is over when `main` returns or when a checked call fails, in `main` or in a thread.
pub mod Calls
pub mod Order
pub mod Progress
pub mod Printing
pub mod Schedules
use operating_systems_and_ne.Base.{
  ℕ, zero, suc, Bool, true, false, ◌&&◌, Option, none, some, List, [], ◌∷◌, ◌≡◌, update,
  if◌then◌else◌,
}
use operating_systems_and_ne.Base.Int.{ℤ}
use operating_systems_and_ne.Multithreading.Errors.{Flow, exit_on_error, exit_success}

-- The calls of `main`. A mutex and a thread are named by their index.
pub data Call : Type 0 where
  mutex_init mutex_destroy : (mutex : ℕ) → Call
  sem_init sem_destroy dispatch_semaphore_create : Call
  thread_create thread_join : (thread : ℕ) → Call
  print : Call

-- A `for` loop over `i` with a call in its body.
abbrev pub for_each : (ℕ → Call) → (left : ℕ) → ℕ → List Call
for_each f zero i = []
for_each f (suc left) i = f i ∷ for_each f left (suc i)

-- What the threads of a program do: a step of one of them, where the outside chooses; whether a
-- thread has returned from `thread_start`; the status that a thread exited with; the number that
-- `main` prints.
pub record Threads : Type 1 where
  pub State : Type 0
  pub Choice : Type 0
  pub step : State → ℕ → Choice → Option State
  pub returned : State → ℕ → Bool
  pub exited : State → Option ℕ
  pub shown : State → ℤ

pub record Process (P : Threads) : Type 0 where
  pub threads : P.State
  pub created : ℕ → Bool
  pub todo : List Call
  pub output : List ℤ
  pub ended : Option ℕ

-- Before the first call of `main`.
abbrev pub launch : (P : Threads) → P.State → List Call → Process P
launch P s calls = record {
  threads = s;
  created = λ w. false;
  todo = calls;
  output = [];
  ended = none;
}

abbrev pub is_none {ℓ} : {A : Type ℓ} → Option A → Bool
is_none none = true
is_none (some _) = false

abbrev pub is_running : (P : Threads) → Process P → Bool
is_running P s = is_none s.ended && is_none (P.exited s.threads)

-- A call that is checked: 0 goes on, any other result ends the process with EXIT_FAILURE.
abbrev pub checked : (P : Threads) → Process P → Flow → Process P → Process P
checked P s Flow.go_on t = t
checked P s (Flow.exit_process code) t = record s { ended = some code }

-- `pthread_join` fails at once, or waits for its thread.
abbrev pub joined : (P : Threads) → Process P → ℕ → Flow → List Call → Option (Process P)
joined P s w Flow.go_on rest =
    if P.returned s.threads w then some (record s { todo = rest }) else none
joined P s w (Flow.exit_process code) rest = some (record s { ended = some code })

-- The next call of `main`, which gives `err`.
unfoldable pub call : (P : Threads) → Process P → ℕ → List Call → Option (Process P)
call P s err [] = some (record s { ended = some exit_success })
call P s err (Call.thread_join w ∷ rest) = joined P s w (exit_on_error err) rest
call P s err (Call.thread_create w ∷ rest) =
    some (
      checked P s (exit_on_error err) (record s { created = update s.created w true; todo = rest }))
call P s err (Call.print ∷ rest) =
    some (record s { output = P.shown s.threads ∷ s.output; todo = rest })
call P s err (Call.dispatch_semaphore_create ∷ rest) = some (record s { todo = rest })
call P s err (c ∷ rest) = some (checked P s (exit_on_error err) (record s { todo = rest }))

pub data Turn (P : Threads) : Type 0 where
  of_main : (err : ℕ) → Turn P
  of_thread : (thread : ℕ) → P.Choice → Turn P

abbrev pub with_threads : (P : Threads) → Process P → Option P.State → Option (Process P)
with_threads P s none = none
with_threads P s (some t) = some (record s { threads = t })

-- `none`: `main` or the thread has to wait, the thread does not exist, or the process is over.
unfoldable pub process_step : (P : Threads) → Process P → Turn P → Option (Process P)
process_step P s (Turn.of_main err) = if is_running P s then call P s err s.todo else none
process_step P s (Turn.of_thread w c) =
    if is_running P s && s.created w then with_threads P s (P.step s.threads w c) else none

-- The states that a scheduler and the outside can bring about from `start`, with the steps so far.
pub data Run (P : Threads) (start : Process P) : ℕ → Process P → Type 0 where
  begin : Run P start 0 start
  turn :
      {n : ℕ} {s t : Process P} (u : Turn P)
      → Run P start n s
      → process_step P s u ≡ some t
      → Run P start (suc n) t
