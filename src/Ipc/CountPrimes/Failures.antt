-- ===== src/Ipc/CountPrimes/Failures.antt =====
-- What `main` of count_primes.c does and prints when workers fail.
use operating_systems_and_ne.Base.{
  ℕ, zero, suc, ◌+◌, ◌%◌, ◌^◌, ◌<◌, ◌≡◌, refl, ap, ◌∙◌, Option, none, some, List, [], ◌∷◌, arith,
}
use operating_systems_and_ne.Os.{
  exited, signaled, stopped, Answer, gives, Event, printed, exit_success, returns, then_run,
}
use operating_systems_and_ne.Os.Process.{number_call}
use operating_systems_and_ne.Ipc.CountPrimes.{
  Worker, get_results, add_result, to_size, started, finish,
}
use operating_systems_and_ne.Ipc.CountPrimes.Deliveries.{
  Reading, Ending, Delivery, IsReading, answers_of, events_of, count_read, count_if_ended, count_of,
  get_result-count_of,
}

abbrev pub gain : Option ℕ → ℕ
gain none = 0
gain (some n) = n

abbrev pub lost_one : Option ℕ → ℕ
lost_one none = 1
lost_one (some n) = 0

-- The sum of the counts, and the number of the workers without one.
abbrev pub counted : List Delivery → ℕ
counted [] = 0
counted (d ∷ ds) = gain (count_of d) + counted ds

abbrev pub failures : List Delivery → ℕ
failures [] = 0
failures (d ∷ ds) = lost_one (count_of d) + failures ds

abbrev pub all_answers : List (Worker × Delivery) → List Answer → List Answer
all_answers [] rest = rest
all_answers ((w, d) ∷ ws) rest = answers_of w d (all_answers ws rest)

abbrev pub all_events : List (Worker × Delivery) → List Event → List Event
all_events [] log = log
all_events ((w, d) ∷ ws) log = all_events ws (events_of w d log)

abbrev pub AllReadings : List (Worker × Delivery) → Type 0
AllReadings [] = Unit
AllReadings ((w, d) ∷ ws) = IsReading d.reading × AllReadings ws

abbrev pub deliveries : List (Worker × Delivery) → List Delivery
deliveries [] = []
deliveries ((w, d) ∷ ws) = d ∷ deliveries ws

abbrev pub workers : List (Worker × Delivery) → List Worker
workers [] = []
workers ((w, d) ∷ ws) = w ∷ workers ws

-- The sum so far, one short for each failure.
abbrev IsShort : ℕ → ℕ → ℕ → Type 0
IsShort total bad good = (total < 2 ^ 64) × ((total + bad) % 2 ^ 64 ≡ good % 2 ^ 64)

to_size-small : (n : ℕ) → n < 2 ^ 31 → to_size n ≡ n
to_size-small n h = ground arith

abbrev Fits : Option ℕ → Type 0
Fits none = Unit
Fits (some n) = n < 2 ^ 31

count_of-Fits : (d : Delivery) → IsReading d.reading → Fits (count_of d)
count_of-Fits d h = fits d.reading d.ending h
  where
    fits : (r : Reading) (end : Ending) → IsReading r → Fits (count_if_ended end (count_read r))
    fits (Reading.sends n) (Ending.ended (exited zero)) h = h
    fits (Reading.sends n) (Ending.ended (exited (suc code))) h = tt
    fits (Reading.sends n) (Ending.ended (signaled signal)) h = tt
    fits (Reading.sends n) (Ending.ended (stopped signal)) h = h
    fits (Reading.sends n) (Ending.lost errno) h = tt
    fits (Reading.cut_off bytes) (Ending.ended (exited zero)) h = tt
    fits (Reading.cut_off bytes) (Ending.ended (exited (suc code))) h = tt
    fits (Reading.cut_off bytes) (Ending.ended (signaled signal)) h = tt
    fits (Reading.cut_off bytes) (Ending.ended (stopped signal)) h = tt
    fits (Reading.cut_off bytes) (Ending.lost errno) h = tt
    fits (Reading.unreadable e) (Ending.ended (exited zero)) h = tt
    fits (Reading.unreadable e) (Ending.ended (exited (suc code))) h = tt
    fits (Reading.unreadable e) (Ending.ended (signaled signal)) h = tt
    fits (Reading.unreadable e) (Ending.ended (stopped signal)) h = tt
    fits (Reading.unreadable e) (Ending.lost errno) h = tt

add_result-IsShort :
    (total bad good : ℕ) (o : Option ℕ)
    → Fits o
    → IsShort total bad good
    → IsShort (add_result total o) (lost_one o + bad) (gain o + good)
add_result-IsShort total bad good none f (low, short) = (omega arith, omega (arith, short))
add_result-IsShort total bad good (some n) f (low, short) =
    (omega arith, rw (to_size-small n f) (omega (arith, short)))

get_results-IsShort :
    (ws : List (Worker × Delivery)) (rest : List Answer) (e : ℕ) (log : List Event)
    (total bad good : ℕ)
    → AllReadings ws
    → IsShort total bad good
    → (t : ℕ) × (x : ℕ) × (get_results
          (workers ws)
          total
          (record { answers = all_answers ws rest; errno = e; log = log })
        ≡ returns t (record { answers = rest; errno = x; log = all_events ws log }))
      × IsShort t (failures (deliveries ws) + bad) (counted (deliveries ws) + good)
unfolding get_results
get_results-IsShort [] rest e log total bad good c (low, short) =
    (total, e, refl, (low, omega (arith, short)))
get_results-IsShort ((w, d) ∷ ws) rest e log total bad good (c, cs) short =
    let (x, got) = get_result-count_of w d (all_answers ws rest) e log c in
    let next = add_result-IsShort total bad good (count_of d) (count_of-Fits d c) short in
    let (t, y, sum, end) =
      get_results-IsShort ws rest x (events_of w d log) (add_result total (count_of d)) _ _ cs
        next in
    (
      t,
      y,
      ap (λ o. then_run o (λ r. get_results (workers ws) (add_result total r))) got ∙ sum,
      (end.0, omega (arith, end.1)),
    )

-- `main` of count_primes.c from its results on, whatever becomes of the workers, where `munmap`
-- succeeds. A count that cannot be read, or of which at most three bytes come, an exit with another
-- status than 0, a signal and a `waitpid` that fails are each reported, by the message for it;
-- `waitpid` is called for each worker, and its pipe is closed, once; and `main` goes on, does nothing
-- else but print the total, and returns EXIT_SUCCESS all the same. The total is one short for each
-- worker of which something was reported, on top of the counts that are missing, as a `size_t` that
-- wraps around below 0.
pub failures_lem :
    (ws : List (Worker × Delivery)) (e : ℕ) (log : List Event)
    → AllReadings ws
    → (total : ℕ) × (x : ℕ) × (started
          (some (workers ws))
          (record { answers = all_answers ws (gives 0 ∷ []); errno = e; log = log })
        ≡ returns exit_success (record {
          answers = [];
          errno = x;
          log = printed "Total primes: %lu\n" [] (total ∷ []) ∷ all_events ws log;
        }))
      × (total < 2 ^ 64)
      × ((total + failures (deliveries ws)) % 2 ^ 64 ≡ counted (deliveries ws) % 2 ^ 64)
unfolding number_call
failures_lem ws e log c =
    let (t, x, sum, end) =
      get_results-IsShort ws (gives 0 ∷ []) e log 0 0 0 c (omega arith, refl) in
    (t, x, ap (λ o. then_run o (λ total. finish total)) sum, end.0, omega (arith, end.1))
