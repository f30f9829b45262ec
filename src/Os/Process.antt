-- ===== src/Os/Process.antt =====
-- The calls on processes, pipes and sockets. After `fork` a run goes on as the parent, or as the
-- child where the answer is 0; the other process is another run.
use Prim.Native.String.{String}
use operating_systems_and_ne.Base.{ℕ, Option, some, List}
use operating_systems_and_ne.Os.{
  Bytes, Fd, Status, Answer, fails, gives, pairs, reports, was_piped, was_duplicated, was_forked,
  was_reaped, was_made, unlinked, was_shut, warned, Event, returns, waits, becomes, M, note, emit,
  ask, failing,
}

abbrev pub fprintf_stderr : String → List Bytes → List ℕ → M (Unit {0})
fprintf_stderr format texts numbers = emit (warned format texts numbers)

abbrev pub pipe_answer : Answer → M (Option (Fd × Fd))
pipe_answer (fails e) w = failing e w
pipe_answer (pairs r v) w = returns (some (r, v)) (note (was_piped r v) w)
pipe_answer a w = waits w

-- `pipe(fd)`: the ends to read and to write.
unfoldable pub pipe : M (Option (Fd × Fd))
pipe = ask pipe_answer

abbrev pub fork_answer : Answer → M (Option ℕ)
fork_answer (fails e) w = failing e w
fork_answer (gives pid) w = returns (some pid) (note (was_forked pid) w)
fork_answer a w = waits w

-- `fork()`: 0 in the child.
unfoldable pub fork : M (Option ℕ)
fork = ask fork_answer

abbrev pub dup2_answer : Fd → Fd → Answer → M (Option (Unit {0}))
dup2_answer old new (fails e) w = failing e w
dup2_answer old new (gives k) w = returns (some tt) (note (was_duplicated old new) w)
dup2_answer old new a w = waits w

-- `dup2(old, new)`
unfoldable pub dup2 : Fd → Fd → M (Option (Unit {0}))
dup2 old new = ask (dup2_answer old new)

abbrev pub exec_answer : String → List String → Answer → M (Option (Unit {0}))
exec_answer file args (fails e) w = failing e w
exec_answer file args (gives k) w = becomes file args w
exec_answer file args a w = waits w

-- `execlp` and `execvp` come back only when they fail.
unfoldable pub exec : String → List String → M (Option (Unit {0}))
exec file args = ask (exec_answer file args)

abbrev pub waitpid_answer : ℕ → Answer → M (Option Status)
waitpid_answer pid (fails e) w = failing e w
waitpid_answer pid (reports p st) w = returns (some st) (note (was_reaped pid st) w)
waitpid_answer pid a w = waits w

-- `waitpid(pid, &status, 0)`
unfoldable pub waitpid : ℕ → M (Option Status)
waitpid pid = ask (waitpid_answer pid)

abbrev pub wait_answer : Answer → M (Option (ℕ × Status))
wait_answer (fails e) w = failing e w
wait_answer (reports p st) w = returns (some (p, st)) (note (was_reaped p st) w)
wait_answer a w = waits w

-- `wait(&status)`
unfoldable pub wait : M (Option (ℕ × Status))
wait = ask wait_answer

-- A call that gives 0 and logs `e`, or gives -1.
abbrev pub done_answer : Event → Answer → M (Option (Unit {0}))
done_answer e (fails x) w = failing x w
done_answer e (gives k) w = returns (some tt) (note e w)
done_answer e a w = waits w

-- `mkfifo(path, 0666)`
unfoldable pub mkfifo : String → M (Option (Unit {0}))
mkfifo path = ask (done_answer (was_made path))

unfoldable pub unlink : String → M (Option (Unit {0}))
unlink path = ask (done_answer (unlinked path))

-- `shutdown(fd, SHUT_WR)`
unfoldable pub shutdown : Fd → M (Option (Unit {0}))
shutdown fd = ask (done_answer (was_shut fd))

-- A call whose answer is a number or -1, and which logs nothing: `socket`, `accept`, `inet_pton`.
abbrev pub number_answer : Answer → M (Option ℕ)
number_answer (fails x) w = failing x w
number_answer (gives k) w = returns (some k) w
number_answer a w = waits w

unfoldable pub number_call : M (Option ℕ)
number_call = ask number_answer
