-- ===== src/Ipc/CountPrimes.antt =====
-- count_primes.c: the primes of an array, counted by several children and added up. The array is
-- shared with the children, and nobody writes to it after `fork`. `atoi` and `rand` are the C
-- library's: `rand i` is the value of its call number `i`.
pub mod Prime
pub mod Partition
pub mod Totals
pub mod Deliveries
pub mod Failures
use operating_systems_and_ne.Base.{
  ℕ, zero, suc, ◌+◌, ◌-◌, ◌*◌, ◌/◌, ◌%◌, ◌^◌, ltb, ◌==◌, Bool, true, false, Option, none, some,
  List, [], ◌∷◌, length, take, drop, if◌then◌else◌,
}
use operating_systems_and_ne.Base.Int.{ℤ, pos, negsuc}
use operating_systems_and_ne.Os.{
  exit_success, exit_failure, Bytes, Fd, undefined, M, pure, exit, ◌>>=◌, ◌>>◌, read, write, close,
  perror, printf,
}
use operating_systems_and_ne.Os.Process.{fprintf_stderr, pipe, fork, number_call}
use operating_systems_and_ne.Ipc.Children.{wait_report}

abbrev pub max_workers : ℕ
max_workers = 8

abbrev pub nnumbers : ℕ
nnumbers = 1000000

abbrev pub max_rnd_number : ℕ
max_rnd_number = 100000

-- `worker`
pub record Worker : Type 0 where
  pub pid : ℕ
  pub rfd : Fd

-- The loop of `is_prime` from `i` on, `steps` rounds.
pub has_no_divisor : (steps : ℕ) → ℕ → ℕ → Bool
has_no_divisor zero n i = true
has_no_divisor (suc steps) n i = if n % i == 0 then false else has_no_divisor steps n (suc i)

pub is_prime : ℕ → Bool
is_prime n = if ltb n 2 then false else has_no_divisor (n - 2) n 2

-- The loop of a child over `*begin` to `*end`. The count is at most `nnumbers`, so that the `int`
-- does not overflow.
pub count_primes : List ℕ → ℕ
count_primes [] = 0
count_primes (n ∷ numbers) = (if is_prime n then 1 else 0) + count_primes numbers

-- The part of the array from index `begin` to before `end`.
abbrev pub slice : ℕ → ℕ → List ℕ → List ℕ
slice begin end numbers = take (end - begin) (drop begin numbers)

-- The four bytes of an `int`, the lowest first.
abbrev pub int_bytes : ℕ → Bytes
int_bytes n = n % 256 ∷ n / 256 % 256 ∷ n / 65536 % 256 ∷ n / 16777216 % 256 ∷ []

abbrev pub int_of : Bytes → Option ℕ
int_of (a ∷ b ∷ c ∷ d ∷ []) = some (a + 256 * b + 65536 * c + 16777216 * d)
int_of bytes = none

-- An `int` of 32 bits that becomes a `size_t`.
abbrev pub to_size : ℕ → ℕ
to_size n = if ltb n (2 ^ 31) then n else n + (2 ^ 64 - 2 ^ 32)

-- `atoi` gives an `int` that becomes a `size_t`.
abbrev pub size_of_int : ℤ → ℕ
size_of_int (pos n) = n
size_of_int (negsuc n) = 2 ^ 64 - suc n

-- The child of `run_worker`.
abbrev pub sent : Fd → Option ℕ → M (Option Worker)
sent wfd none = do perror "write"; close wfd; exit exit_failure
sent wfd (some wb) =
    if wb == 4
    then (do close wfd; exit exit_success)
    else (do perror "write"; close wfd; exit exit_failure)

abbrev pub forked : List ℕ → Fd → Fd → Option ℕ → M (Option Worker)
forked numbers rfd wfd (some zero) = do
  close rfd
  wb ← write wfd (int_bytes (count_primes numbers))
  sent wfd wb
forked numbers rfd wfd none = do perror "fork"; close rfd; close wfd; pure none
forked numbers rfd wfd (some (suc pid)) = do
  close wfd
  pure (some (record { pid = suc pid; rfd = rfd }))

abbrev pub piped : List ℕ → Option (Fd × Fd) → M (Option Worker)
piped numbers none = do perror "pipe"; pure none
piped numbers (some (rfd, wfd)) = do pid ← fork; forked numbers rfd wfd pid

-- `none` is -1.
pub run_worker : List ℕ → M (Option Worker)
run_worker numbers = do fd ← pipe; piped numbers fd

-- `begin` and `end` of worker `i`.
pub begin_of : (num_per_worker : ℕ) → ℕ → ℕ
begin_of num_per_worker i = i * num_per_worker

pub end_of : (total : ℕ) → (num_per_worker : ℕ) → (nworkers : ℕ) → ℕ → ℕ
end_of total num_per_worker nworkers i =
    if i == nworkers - 1 then total else (i + 1) * num_per_worker

abbrev pub share : List ℕ → ℕ → ℕ → List ℕ
share numbers nworkers i =
    slice (begin_of (length numbers / nworkers) i)
      (end_of (length numbers) (length numbers / nworkers) nworkers i) numbers

-- The loop of `main` that starts the workers `i` on, `left` of them.
abbrev pub and_then : M (Option (List Worker)) → Option Worker → M (Option (List Worker))
and_then rest none = pure none
and_then rest (some w) = do ws ← rest; elim ws [ none ↦ pure none | some l ↦ pure (some (w ∷ l)) ]

pub run_workers : List ℕ → ℕ → (left : ℕ) → ℕ → M (Option (List Worker))
run_workers numbers nworkers zero i = pure (some [])
run_workers numbers nworkers (suc left) i = do
  w ← run_worker (share numbers nworkers i)
  and_then (run_workers numbers nworkers left (suc i)) w

-- `get_result`; `none` is -1.
abbrev pub value_read : Option Bytes → M (Option ℕ)
value_read none = do perror "read"; pure none
value_read (some bytes) = elim (int_of bytes) [
  | none ↦ do perror "read"; pure none
  | some nprimes ↦ pure (some nprimes)
]

pub get_result : Worker → M (Option ℕ)
get_result w = do
  bytes ← read w.rfd 4
  retval ← value_read bytes
  ok ← wait_report w.pid
  close w.rfd
  pure (if ok then retval else none)

-- `total_primes += get_result(...)` on a `size_t`: -1 wraps around.
abbrev pub add_result : ℕ → Option ℕ → ℕ
add_result total none = (total + (2 ^ 64 - 1)) % 2 ^ 64
add_result total (some n) = (total + to_size n) % 2 ^ 64

pub get_results : List Worker → ℕ → M ℕ
get_results [] total = pure total
get_results (w ∷ ws) total = do r ← get_result w; get_results ws (add_result total r)

-- The values that `mmap_numbers` fills in, `left` of them.
pub random_numbers : (ℕ → ℕ) → (left : ℕ) → ℕ → List ℕ
random_numbers rand zero i = []
random_numbers rand (suc left) i = rand i % max_rnd_number ∷ random_numbers rand left (suc i)

abbrev pub mmap_numbers : (ℕ → ℕ) → M (Option (List ℕ))
mmap_numbers rand = do
  addr ← number_call
  elim addr [ none ↦ pure none | some a ↦ pure (some (random_numbers rand nnumbers 0)) ]

-- `main` from the division by `nworkers` on, which is undefined for 0.
abbrev pub finish : ℕ → M ℕ
finish total = do
  unmapped ← number_call
  elim unmapped [
    | none ↦ do perror "munmap_numbers"; pure exit_failure
    | some u ↦ do printf "Total primes: %lu\n" [] (total ∷ []); pure exit_success
  ]

abbrev pub started : Option (List Worker) → M ℕ
started none = do fprintf_stderr "Fatal error!" [] []; pure exit_failure
started (some ws) = do total ← get_results ws 0; finish total

abbrev pub divide_work : ℕ → List ℕ → M ℕ
divide_work zero numbers = undefined
divide_work (suc n) numbers = do ws ← run_workers numbers (suc n) (suc n) 0; started ws

abbrev pub mapped : ℕ → Option (List ℕ) → M ℕ
mapped nworkers none = do perror "mmap_numbers"; pure exit_failure
mapped nworkers (some numbers) = divide_work nworkers numbers

abbrev pub nworkers_of : (Bytes → ℤ) → List Bytes → ℕ
nworkers_of atoi (name ∷ arg ∷ []) = size_of_int (atoi arg)
nworkers_of atoi argv = 1

pub main : (Bytes → ℤ) → (ℕ → ℕ) → List Bytes → M ℕ
main atoi rand argv =
    if ltb max_workers (nworkers_of atoi argv)
    then (do fprintf_stderr "max workers is %lu\n" [] (max_workers ∷ []); pure exit_failure)
    else (do numbers ← mmap_numbers rand; mapped (nworkers_of atoi argv) numbers)
