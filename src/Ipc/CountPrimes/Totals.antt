-- ===== src/Ipc/CountPrimes/Totals.antt =====
-- What `main` of count_primes.c adds up: the counts that the children send through their pipes.
use operating_systems_and_ne.Base.{
  ℕ, suc, ◌+◌, ◌^◌, ◌≤◌, ◌<◌, ◌≡◌, refl, ap, ◌∙◌, some, List, [], ◌∷◌, length, arith,
}
use operating_systems_and_ne.Os.{
  Bytes, Fd, exited, Answer, gives, brings, pairs, reports, Event, was_read, was_written, was_piped,
  was_forked, was_closed, was_reaped, printed, exit_success, returns, exits, then_run, read, write,
}
use operating_systems_and_ne.Os.Process.{pipe, fork, waitpid, number_call}
use operating_systems_and_ne.Ipc.Children.{wait_report}
use operating_systems_and_ne.Ipc.CountPrimes.{
  Worker, count_primes, int_bytes, int_of, get_result, get_results, add_result, share, run_worker,
  started, finish,
}
use operating_systems_and_ne.Ipc.CountPrimes.Partition.{
  count_shares, count_shares-all, count_shares-le-length,
}

-- The child of `run_worker`, where `pipe` succeeds and the write takes all four bytes: it closes the
-- end to read, writes the number of the primes in its part of the array as an `int` to the other
-- end, closes that, and exits with 0.
pub child_lem :
    (numbers : List ℕ) (rfd wfd : Fd) (rest : List Answer) (e : ℕ) (log : List Event)
    → run_worker numbers
        (record { answers = pairs rfd wfd ∷ gives 0 ∷ gives 4 ∷ rest; errno = e; log = log })
      ≡ exits 0 (record {
        answers = rest;
        errno = e;
        log =
            was_closed wfd
            ∷ was_written wfd (int_bytes (count_primes numbers))
            ∷ was_closed rfd
            ∷ was_forked 0
            ∷ was_piped rfd wfd
            ∷ log;
      })
unfolding run_worker pipe fork write
child_lem numbers rfd wfd rest e log = refl

int_of-int_bytes : (n : ℕ) → n < 2 ^ 32 → int_of (int_bytes n) ≡ some n
int_of-int_bytes n h = ap some (omega arith)

-- The answers to the parent while it collects: each pipe brings what its child wrote, and each
-- child exited with 0. `i` is the number of the first worker.
abbrev pub all_sent : List ℕ → (nworkers : ℕ) → List Worker → ℕ → List Answer → List Answer
all_sent numbers nworkers [] i rest = rest
all_sent numbers nworkers (w ∷ ws) i rest =
    brings (int_bytes (count_primes (share numbers nworkers i)))
    ∷ reports w.pid (exited 0)
    ∷ all_sent numbers nworkers ws (suc i) rest

abbrev pub collected : Worker → Bytes → List Event → List Event
collected w bytes log = was_closed w.rfd ∷ was_reaped w.pid (exited 0) ∷ was_read w.rfd bytes ∷ log

get_result_lem :
    (w : Worker) (n : ℕ) (rest : List Answer) (e : ℕ) (log : List Event)
    → n < 2 ^ 31
    → get_result w (record {
      answers = brings (int_bytes n) ∷ reports w.pid (exited 0) ∷ rest;
      errno = e;
      log = log;
    })
      ≡ returns (some n) (record { answers = rest; errno = e; log = collected w (int_bytes n) log })
unfolding get_result wait_report waitpid read
get_result_lem w n rest e log h =
    ap
      (λ v.
        returns (some v)
          (record { answers = rest; errno = e; log = collected w (int_bytes n) log }))
      (omega arith)

small_sum : (a n : ℕ) → a + n < 2 ^ 31 → add_result a (some n) ≡ a + n
small_sum a n h = ground arith

-- What the bound on all the counts says of one of them.
module _ (numbers : List ℕ) (nworkers i : ℕ) (h : length numbers < 2 ^ 31)
    (fits : count_shares numbers nworkers (suc i) ≤ length numbers) where
  part_small : count_primes (share numbers nworkers i) < 2 ^ 31
  unfolding count_shares
  part_small = omega arith

  added :
      add_result (count_shares numbers nworkers i) (some (count_primes (share numbers nworkers i)))
      ≡ count_shares numbers nworkers (suc i)
  unfolding count_shares
  added =
      small_sum (count_shares numbers nworkers i) (count_primes (share numbers nworkers i))
        (omega arith)

get_results_lem :
    (numbers : List ℕ) (nworkers : ℕ) (ws : List Worker) (i : ℕ) (rest : List Answer) (e : ℕ)
    (log : List Event)
    → length numbers < 2 ^ 31
    → 1 ≤ nworkers
    → i + length ws ≤ nworkers
    → (log' : List Event) × (get_results ws
          (count_shares numbers nworkers i)
          (record { answers = all_sent numbers nworkers ws i rest; errno = e; log = log })
        ≡ returns
            (count_shares numbers nworkers (i + length ws))
            (record { answers = rest; errno = e; log = log' }))
unfolding get_results
get_results_lem numbers nworkers [] i rest e log h l m = (
  log,
  ap
      (λ k.
        returns (count_shares numbers nworkers k) (record { answers = rest; errno = e; log = log }))
      (omega arith),
)
get_results_lem numbers nworkers (w ∷ ws) i rest e log h l m =
    let part = count_primes (share numbers nworkers i) in
    let next = collected w (int_bytes part) log in
    let fits = count_shares-le-length numbers nworkers (suc i) l (omega arith) in
    let later = get_results_lem numbers nworkers ws (suc i) rest e next h l (omega arith) in
    (
      later.0,
      rw
          (get_result_lem w part (all_sent numbers nworkers ws (suc i) rest) e log
            (part_small numbers nworkers i h fits))
          (ap
              (λ t. get_results ws t (record {
                answers = all_sent numbers nworkers ws (suc i) rest;
                errno = e;
                log = next;
              }))
              (added numbers nworkers i h fits)
            ∙ later.1
            ∙ ap
                (λ k.
                  returns (count_shares numbers nworkers k)
                    (record { answers = rest; errno = e; log = later.0 }))
                (omega arith)),
    )

-- `main` of count_primes.c from its results on. If each of the workers, at least one, exits with 0
-- and has sent the count of its part of the array, `main` prints the number of the primes in the
-- whole array and returns EXIT_SUCCESS. The array has fewer than 2^31 numbers.
pub total_lem :
    (numbers : List ℕ) (w : Worker) (ws : List Worker) (e : ℕ) (log : List Event)
    → length numbers < 2 ^ 31
    → (log' : List Event) × (started (some (w ∷ ws)) (record {
      answers = all_sent numbers (length (w ∷ ws)) (w ∷ ws) 0 (gives 0 ∷ []);
      errno = e;
      log = log;
    })
        ≡ returns exit_success (record {
          answers = [];
          errno = e;
          log = printed "Total primes: %lu\n" [] (count_primes numbers ∷ []) ∷ log';
        }))
unfolding number_call count_shares
total_lem numbers w ws e log h =
    let n = length (w ∷ ws) in
    let r =
      get_results_lem numbers n (w ∷ ws) 0 (gives 0 ∷ []) e log h (omega arith) (omega arith) in
    let all : count_shares numbers n (0 + n) ≡ count_primes numbers =
      ap (count_shares numbers n) {y = n} (omega arith)
      ∙ count_shares-all numbers n (omega arith) in
    (
      r.0,
      ap (λ o. then_run o (λ total. finish total)) r.1
          ∙ ap (λ k. finish k (record { answers = gives 0 ∷ []; errno = e; log = r.0 })) all,
    )
