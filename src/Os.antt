-- ===== src/Os.antt =====
-- What the programs use of the C library and the kernel. A process runs against a list of answers,
-- one for each call that the kernel decides, and logs what happened, the latest event first.
-- Nothing is assumed of the answers but that a read gives no more than was asked for, and that a
-- write takes no more than was offered.
pub mod Logs
pub mod Calls
pub mod Fuel
pub mod Kept
pub mod Process
pub mod Datagrams
use Prim.Native.Nat.{min}
use Prim.Native.Char.{code}
use Prim.Native.String.{String}
use operating_systems_and_ne.Base.{
  ℕ, zero, suc, ◌+◌, ltb, Bool, true, false, Option, none, some, List, [], ◌∷◌, ◌++◌, length, take,
  ◌==◌, if◌then◌else◌,
}

abbrev pub exit_success : ℕ
exit_success = 0

abbrev pub exit_failure : ℕ
exit_failure = 1

abbrev pub int_max : ℕ
int_max = 2147483647

-- A descriptor.
abbrev pub Fd : Type 0
Fd = ℕ

-- The bytes of a text or of a buffer.
abbrev pub Bytes : Type 0
Bytes = List ℕ

-- The bytes of a string literal.
abbrev pub codes : String → Bytes
codes String.[] = []
codes (String.◌∷◌ c s) = code c ∷ codes s

-- How a child ended, as `wait` reports it.
pub data Status : Type 0 where
  exited : (code : ℕ) → Status
  signaled : (signal : ℕ) → Status
  stopped : (signal : ℕ) → Status

-- `struct stat`, the fields that the programs use.
pub record Stat : Type 0 where
  pub st_ino : ℕ
  pub st_mode : ℕ
  pub st_uid : ℕ
  pub st_gid : ℕ
  pub st_size : ℕ
  pub st_nlink : ℕ
  pub st_mtime : ℕ

-- What the kernel decides at a call: it fails, gives a number (a descriptor, a count, a process),
-- gives bytes or two descriptors, tells of a child or of a file, or delivers a datagram and the
-- address that it came from.
pub data Answer : Type 0 where
  fails : (errno : ℕ) → Answer
  gives : (value : ℕ) → Answer
  brings : Bytes → Answer
  pairs : (first : ℕ) → (second : ℕ) → Answer
  reports : (pid : ℕ) → Status → Answer
  describes : Stat → Answer
  delivers : Bytes → (address : ℕ) → Answer

pub data Flag : Type 0 where
  o_rdonly o_wronly o_creat o_trunc : Flag

pub data Event : Type 0 where
  failed : (errno : ℕ) → Event
  was_read : Fd → Bytes → Event
  was_written : Fd → Bytes → Event
  was_opened : (path : Bytes) → List Flag → (mode : ℕ) → Fd → Event
  was_closed : Fd → Event
  printed : (format : String) → (texts : List Bytes) → (numbers : List ℕ) → Event
  complained : String → Event
  warned : (format : String) → (texts : List Bytes) → (numbers : List ℕ) → Event
  was_piped : (read_end : Fd) → (write_end : Fd) → Event
  was_duplicated : (old : Fd) → (new : Fd) → Event
  was_forked : (pid : ℕ) → Event
  was_reaped : (pid : ℕ) → Status → Event
  was_made unlinked : (path : String) → Event
  was_shut : Fd → Event
  was_received was_sent : Fd → Bytes → (address : ℕ) → Event
  was_signaled : (pid : ℕ) → (signal : ℕ) → Event
  slept : (seconds : ℕ) → Event

pub record World : Type 0 where
  pub answers : List Answer
  pub errno : ℕ
  pub log : List Event

-- How a run ends: the function returns, the process exits, it becomes another program, it waits for an answer that the list
-- does not have, it does what the C standard leaves undefined, or the fuel of a loop is used up.
pub data Outcome (A : Type 0) : Type 0 where
  returns : A → World → Outcome A
  exits : (code : ℕ) → World → Outcome A
  becomes : (file : String) → (args : List String) → World → Outcome A
  waits undefined no_fuel : World → Outcome A

abbrev pub M : Type 0 → Type 0
M A = World → Outcome A

abbrev pub pure : {A : Type 0} → A → M A
pure a w = returns a w

abbrev pub then_run : {A B : Type 0} → Outcome A → (A → M B) → Outcome B
then_run (returns a w) f = f a w
then_run (exits code w) f = exits code w
then_run (becomes file args w) f = becomes file args w
then_run (waits w) f = waits w
then_run (undefined w) f = undefined w
then_run (no_fuel w) f = no_fuel w

infixl 5 ◌>>=◌ ◌>>◌
abbrev pub ◌>>=◌ : {A B : Type 0} → M A → (A → M B) → M B
◌>>=◌ m f w = then_run (m w) f

abbrev pub ◌>>◌ : {A B : Type 0} → M A → M B → M B
m >> k = m >>= λ _. k

abbrev pub note : Event → World → World
note e w = record w { log = e ∷ w.log }

abbrev pub emit : Event → M (Unit {0})
emit e w = returns tt (note e w)

abbrev pub exit : {A : Type 0} → ℕ → M A
exit code w = exits code w

-- The next answer goes to `f`; without one the process waits.
abbrev pub answered : {A : Type 0} → (Answer → M A) → World → List Answer → Outcome A
answered f w [] = waits w
answered f w (a ∷ rest) = f a (record w { answers = rest })

abbrev pub ask : {A : Type 0} → (Answer → M A) → M A
ask f w = answered f w w.answers

-- Fuel for a loop that makes a call in every round: one more than there are answers.
abbrev pub with_fuel : {A : Type 0} → (ℕ → M A) → M A
with_fuel f w = f (suc (length w.answers)) w

-- A call that gives -1 sets `errno`; here it gives `none`.
abbrev pub failing : {A : Type 0} → ℕ → M (Option A)
failing e w = returns none (note (failed e) (record w { errno = e }))

abbrev pub waiting : {A : Type 0} → M A
waiting w = waits w

abbrev pub read_answer : Fd → ℕ → Answer → M (Option Bytes)
read_answer fd n (fails e) w = failing e w
read_answer fd n (brings bs) w = returns (some (take n bs)) (note (was_read fd (take n bs)) w)
read_answer fd n a w = waits w

-- `read(fd, buf, n)`: the bytes that it puts into `buf`, none at the end of the file.
unfoldable pub read : Fd → ℕ → M (Option Bytes)
read fd n = ask (read_answer fd n)

abbrev pub write_answer : Fd → Bytes → Answer → M (Option ℕ)
write_answer fd bs (fails e) w = failing e w
write_answer fd bs (gives k) w =
    returns (some (min k (length bs))) (note (was_written fd (take (min k (length bs)) bs)) w)
write_answer fd bs a w = waits w

-- `write(fd, buf, n)` for the `n` bytes `bs`: how many of them it takes.
unfoldable pub write : Fd → Bytes → M (Option ℕ)
write fd bs = ask (write_answer fd bs)

abbrev pub open_answer : Bytes → List Flag → ℕ → Answer → M (Option Fd)
open_answer path flags mode (fails e) w = failing e w
open_answer path flags mode (gives fd) w =
    returns (some fd) (note (was_opened path flags mode fd) w)
open_answer path flags mode a w = waits w

-- `open(path, flags, mode)`; the mode is 0 where the call has none.
unfoldable pub open_file : Bytes → List Flag → ℕ → M (Option Fd)
open_file path flags mode = ask (open_answer path flags mode)

abbrev pub stat_answer : Answer → M (Option Stat)
stat_answer (fails e) w = failing e w
stat_answer (describes sb) w = returns (some sb) w
stat_answer a w = waits w

-- `stat(path, &sb)`
unfoldable pub stat : Bytes → M (Option Stat)
stat path = ask stat_answer

-- `close(fd)`, whose result no program looks at.
abbrev pub close : Fd → M (Unit {0})
close fd = emit (was_closed fd)

abbrev pub perror : String → M (Unit {0})
perror s = emit (complained s)

-- `printf` with the arguments for `%s` and those for numbers.
abbrev pub printf : String → List Bytes → List ℕ → M (Unit {0})
printf format texts numbers = emit (printed format texts numbers)

-- `a += b` on an `int` that is not negative: an overflow is undefined.
unfoldable pub add_int : ℕ → ℕ → M ℕ
add_int a b = if ltb int_max (a + b) then undefined else pure (a + b)

-- The text in a `char` array, up to its terminator, if the array has one.
unfoldable pub c_string : Bytes → Option Bytes
c_string [] = none
c_string (zero ∷ rest) = some []
c_string (suc c ∷ rest) = elim (c_string rest) [ none ↦ none | some s ↦ some (suc c ∷ s) ]
