-- ===== src/Ipc/Signal/Waiting.antt =====
-- signal.c ends at SIGINT, and at nothing else.
use native.Mathlib.Nat.{le_refl}
use operating_systems_and_ne.Base.{
  ℕ, zero, suc, ◌<◌, ◌≡◌, ◌≢◌, refl, false, some, List, [], ◌∷◌, length, arith, ◌==◌,
}
use operating_systems_and_ne.Os.{exit_success, Answer, gives, Event, printed, slept, returns}
use operating_systems_and_ne.Ipc.Kill.{sigint}
use operating_systems_and_ne.Ipc.Signal.{signal_status, wait_loop, handler_set}

-- The tests of `signal_status` up to the first one that meets SIGINT.
abbrev pub tests : List ℕ → List Answer → List Answer
tests [] rest = gives sigint ∷ rest
tests (signal ∷ signals) rest = gives signal ∷ tests signals rest

abbrev pub NoneIsSigint : List ℕ → Type 0
NoneIsSigint [] = Unit
NoneIsSigint (signal ∷ signals) = (signal ≢ sigint) × NoneIsSigint signals

-- The log after a second for each signal.
abbrev pub waited : List ℕ → List Event → List Event
waited [] l = l
waited (signal ∷ signals) l = waited signals (slept 1 ∷ l)

wait_loop-waited :
    (signals : List ℕ) (f : ℕ) (rest : List Answer) (e : ℕ) (l : List Event)
    → NoneIsSigint signals
    → length (tests signals rest) < f
    → wait_loop f (record { answers = tests signals rest; errno = e; log = l })
      ≡ returns exit_success (record {
        answers = rest;
        errno = e;
        log = printed "Gracefully finishing\n" [] [] ∷ waited signals l;
      })
unfolding wait_loop signal_status
wait_loop-waited signals zero rest e l other less = absurd (omega arith)
wait_loop-waited [] (suc f) rest e l other less = refl
wait_loop-waited (signal ∷ signals) (suc f) rest e l (differs, other) less =
    let goes_on : (signal == sigint) ≡ false = ground arith in
    rw goes_on (wait_loop-waited signals f rest e (slept 1 ∷ l) other (omega arith))

-- signal.c, once the handler is set: it sleeps a second for each test that meets another signal or none,
-- and at the first test that meets SIGINT it says so and returns EXIT_SUCCESS.
pub signal_lem :
    (signals : List ℕ) (handler : ℕ) (rest : List Answer) (e : ℕ) (l : List Event)
    → NoneIsSigint signals
    → handler_set (some handler) (record { answers = tests signals rest; errno = e; log = l })
      ≡ returns exit_success (record {
        answers = rest;
        errno = e;
        log = printed "Gracefully finishing\n" [] [] ∷ waited signals l;
      })
signal_lem signals handler rest e l other =
    wait_loop-waited signals (suc (length (tests signals rest))) rest e l other (le_refl _)
