-- ===== src/Ipc/CountPrimes/Deliveries.antt =====
-- What the parent of count_primes.c gets of a worker, and what `get_result` makes of it.
use operating_systems_and_ne.Base.{
  ℕ, zero, suc, ◌^◌, ◌<◌, ◌≡◌, refl, ap, ◌∙◌, Option, none, some, List, [], ◌∷◌, arith, length,
  if◌then◌else◌,
}
use operating_systems_and_ne.Os.{
  Bytes, Status, exited, signaled, stopped, Answer, fails, brings, reports, Event, failed,
  complained, warned, was_closed, was_reaped, was_read, returns, M, pure, ◌>>=◌, ◌>>◌, read, close,
}
use operating_systems_and_ne.Os.Process.{waitpid}
use operating_systems_and_ne.Ipc.Children.{wait_report}
use operating_systems_and_ne.Ipc.CountPrimes.{Worker, int_bytes, get_result}

-- What the parent reads from the pipe of a worker: the count, at most three bytes, or nothing
-- because the call fails.
pub data Reading : Type 0 where
  sends : (nprimes : ℕ) → Reading
  cut_off : Bytes → Reading
  unreadable : (errno : ℕ) → Reading

-- What `waitpid` says of the worker: how it ended, or nothing because the call fails.
pub data Ending : Type 0 where
  ended : Status → Ending
  lost : (errno : ℕ) → Ending

pub record Delivery : Type 0 where
  pub reading : Reading
  pub ending : Ending

abbrev pub read_result : Reading → Answer
read_result (Reading.sends n) = brings (int_bytes n)
read_result (Reading.cut_off bytes) = brings bytes
read_result (Reading.unreadable e) = fails e

abbrev pub wait_result : Worker → Ending → Answer
wait_result w (Ending.ended status) = reports w.pid status
wait_result w (Ending.lost e) = fails e

abbrev pub answers_of : Worker → Delivery → List Answer → List Answer
answers_of w d rest = read_result d.reading ∷ wait_result w d.ending ∷ rest

-- A count that fits an `int`, or too few bytes for one.
abbrev pub IsReading : Reading → Type 0
IsReading (Reading.sends n) = n < 2 ^ 31
IsReading (Reading.cut_off bytes) = length bytes < 4
IsReading (Reading.unreadable e) = Unit

-- What the parent does about the reading, the latest first: a reading that fails is reported.
abbrev pub read_events : Worker → Reading → List Event → List Event
read_events w (Reading.sends n) log = was_read w.rfd (int_bytes n) ∷ log
read_events w (Reading.cut_off bytes) log = complained "read" ∷ was_read w.rfd bytes ∷ log
read_events w (Reading.unreadable e) log = complained "read" ∷ failed e ∷ log

-- What it does about the ending: an exit with another status than 0, a signal and a `waitpid` that
-- fails are reported.
abbrev pub wait_events : Worker → Ending → List Event → List Event
wait_events w (Ending.ended (exited zero)) log = was_reaped w.pid (exited zero) ∷ log
wait_events w (Ending.ended (exited (suc code))) log =
    warned "Child processed exited with status %d\n" [] (suc code ∷ [])
    ∷ was_reaped w.pid (exited (suc code))
    ∷ log
wait_events w (Ending.ended (signaled signal)) log =
    warned "Child processed was terminated by signal %d\n" [] (signal ∷ [])
    ∷ was_reaped w.pid (signaled signal)
    ∷ log
wait_events w (Ending.ended (stopped signal)) log = was_reaped w.pid (stopped signal) ∷ log
wait_events w (Ending.lost e) log = complained "waitpid" ∷ failed e ∷ log

abbrev pub events_of : Worker → Delivery → List Event → List Event
events_of w d log = was_closed w.rfd ∷ wait_events w d.ending (read_events w d.reading log)

-- The count of a worker that did what it should.
abbrev pub count_read : Reading → Option ℕ
count_read (Reading.sends n) = some n
count_read r = none

abbrev pub count_if_ended : Ending → Option ℕ → Option ℕ
count_if_ended (Ending.ended (exited zero)) n = n
count_if_ended (Ending.ended (stopped signal)) n = n
count_if_ended end n = none

abbrev pub count_of : Delivery → Option ℕ
count_of d = count_if_ended d.ending (count_read d.reading)

-- The parent once it has read from the pipe.
abbrev settle : Worker → Option ℕ → M (Option ℕ)
settle w retval = do ok ← wait_report w.pid; close w.rfd; pure (if ok then retval else none)

settle-wait_events :
    (w : Worker) (end : Ending) (n : Option ℕ) (rest : List Answer) (e : ℕ) (log : List Event)
    → (x : ℕ) × (settle w n (record { answers = wait_result w end ∷ rest; errno = e; log = log })
        ≡ returns
            (count_if_ended end n)
            (record { answers = rest; errno = x; log = was_closed w.rfd ∷ wait_events w end log }))
unfolding wait_report waitpid
settle-wait_events w (Ending.ended (exited zero)) n rest e log = (_, refl)
settle-wait_events w (Ending.ended (exited (suc code))) n rest e log = (_, refl)
settle-wait_events w (Ending.ended (signaled signal)) n rest e log = (_, refl)
settle-wait_events w (Ending.ended (stopped signal)) n rest e log = (_, refl)
settle-wait_events w (Ending.lost errno) n rest e log = (_, refl)

get_result-settle :
    (w : Worker) (r : Reading) (rest : List Answer) (e : ℕ) (log : List Event)
    → IsReading r
    → (x : ℕ) × (get_result w (record { answers = read_result r ∷ rest; errno = e; log = log })
        ≡ settle w (count_read r) (record { answers = rest; errno = x; log = read_events w r log }))
unfolding get_result read
get_result-settle w (Reading.sends n) rest e log h = (
  e,
  ap
      (λ v.
        settle w (some v)
          (record { answers = rest; errno = e; log = was_read w.rfd (int_bytes n) ∷ log }))
      (omega arith),
)
get_result-settle w (Reading.cut_off []) rest e log h = (_, refl)
get_result-settle w (Reading.cut_off (a ∷ [])) rest e log h = (_, refl)
get_result-settle w (Reading.cut_off (a ∷ b ∷ [])) rest e log h = (_, refl)
get_result-settle w (Reading.cut_off (a ∷ b ∷ c ∷ [])) rest e log h = (_, refl)
get_result-settle w (Reading.cut_off (a ∷ b ∷ c ∷ d ∷ more)) rest e log h = absurd (omega arith)
get_result-settle w (Reading.unreadable errno) rest e log h = (_, refl)

-- `get_result` on a delivery: its value, and all that it does.
pub get_result-count_of :
    (w : Worker) (d : Delivery) (rest : List Answer) (e : ℕ) (log : List Event)
    → IsReading d.reading
    → (x : ℕ) × (get_result w (record { answers = answers_of w d rest; errno = e; log = log })
        ≡ returns (count_of d) (record { answers = rest; errno = x; log = events_of w d log }))
get_result-count_of w d rest e log h =
    let (x, got) = get_result-settle w d.reading (wait_result w d.ending ∷ rest) e log h in
    let (y, settled) =
      settle-wait_events w d.ending (count_read d.reading) rest x (read_events w d.reading log) in
    (y, got ∙ settled)
