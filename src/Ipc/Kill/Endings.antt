-- ===== src/Ipc/Kill/Endings.antt =====
-- All the ways in which a run of kill.c ends.
use operating_systems_and_ne.Base.{
  ℕ, zero, suc, ◌≡◌, ◌⊎◌, refl, Bool, true, false, inl, inr, List, [], ◌∷◌, ◌++◌, if◌then◌else◌,
}
use operating_systems_and_ne.Base.Int.{ℤ}
use operating_systems_and_ne.Os.{
  exit_success, exit_failure, Status, exited, signaled, stopped, Answer, fails, gives, reports,
  Event, was_forked, failed, was_reaped, was_signaled, slept, printed, warned, complained, World,
  Outcome, returns, exits, waits, then_run,
}
use operating_systems_and_ne.Os.Process.{fork}
use operating_systems_and_ne.Ipc.Kill.{
  sigint, waitpid_nohang, kill, second_poll, killed, first_poll, is_one, child, start_and_kill,
}

-- What the parent says of a child that ended.
abbrev pub verdict : Status → Event
verdict (exited code) = printed "Child process exited normally with exit code: %d\n" [] (code ∷ [])
verdict (signaled signal) =
    printed "Child process was terminated by signal number: %d\n" [] (signal ∷ [])
verdict (stopped signal) = printed "Child process was finished by unknown cause\n" [] []

-- After a second.
abbrev pub started : ℕ → List Event → List Event
started pid l =
    slept 1
    ∷ printed "Child proess with pid %d started\n" [] (suc pid ∷ [])
    ∷ was_forked (suc pid)
    ∷ l

-- After another one, with SIGINT before it.
abbrev pub interrupted : ℕ → List Event → List Event
interrupted pid l =
    slept 1
    ∷ was_signaled (suc pid) sigint
    ∷ printed "Child process hangs. Sending SIGINT\n" [] []
    ∷ started pid l

pub data Ends (mode : ℤ) (l : List Event) : Outcome ℕ → Type 0 where
  ended_alone :
      {p : ℕ} {status : Status} {w : World}
      → w.log ≡ verdict status ∷ was_reaped (suc p) status ∷ started p l
      → Ends mode l (returns exit_success w)
  ended_after_signal :
      {p : ℕ} {status : Status} {w : World}
      → w.log ≡ verdict status ∷ was_reaped (suc p) status ∷ interrupted p l
      → Ends mode l (returns exit_success w)
  ignores_signal :
      {p : ℕ} {w : World}
      → w.log ≡ warned "child process ignored SIGINT\n" [] [] ∷ interrupted p l
      → Ends mode l (returns exit_failure w)
  not_forked :
      {e : ℕ} {w : World}
      → w.log ≡ complained "fork" ∷ failed e ∷ l
      → Ends mode l (returns exit_failure w)
  not_waited :
      {p e : ℕ} {w : World} (before : List Event)
      → (before ≡ started p l) ⊎ (before ≡ interrupted p l)
      → w.log ≡ complained "waitpid" ∷ failed e ∷ before
      → Ends mode l (returns exit_failure w)
  not_signaled :
      {p e : ℕ} {w : World}
      → w.log
        ≡ complained "kill"
          ∷ failed e
          ∷ printed "Child process hangs. Sending SIGINT\n" [] []
          ∷ started p l
      → Ends mode l (returns exit_failure w)
  child_ends :
      {w : World}
      → w.log ≡ (if is_one mode then slept 5 ∷ [] else []) ++ (was_forked 0 ∷ l)
      → Ends mode l (exits exit_success w)
  blocks : {w : World} → Ends mode l (waits w)

module _ (mode : ℤ) (l : List Event) where
  second_poll-Ends :
      (more : List Answer) (e p : ℕ)
      → Ends mode l (
          then_run
            (waitpid_nohang (suc p) (record { answers = more; errno = e; log = interrupted p l }))
            second_poll)
  unfolding waitpid_nohang
  second_poll-Ends [] e p = Ends.blocks
  second_poll-Ends (fails x ∷ more) e p = Ends.not_waited {p = p} _ (inr refl) refl
  second_poll-Ends (gives zero ∷ more) e p = Ends.ignores_signal refl
  second_poll-Ends (reports q (exited c) ∷ more) e p =
      Ends.ended_after_signal {status = exited c} refl
  second_poll-Ends (reports q (signaled c) ∷ more) e p =
      Ends.ended_after_signal {status = signaled c} refl
  second_poll-Ends (reports q (stopped c) ∷ more) e p =
      Ends.ended_after_signal {status = stopped c} refl
  second_poll-Ends (other ∷ more) e p = Ends.blocks

  killed-Ends :
      (more : List Answer) (e p : ℕ)
      → Ends mode l (
          then_run
            (kill (suc p) sigint (record {
              answers = more;
              errno = e;
              log = printed "Child process hangs. Sending SIGINT\n" [] [] ∷ started p l;
            }))
            (killed (suc p)))
  unfolding kill
  killed-Ends [] e p = Ends.blocks
  killed-Ends (fails x ∷ more) e p = Ends.not_signaled refl
  killed-Ends (gives k ∷ more) e p = second_poll-Ends more e p
  killed-Ends (other ∷ more) e p = Ends.blocks

  first_poll-Ends :
      (more : List Answer) (e p : ℕ)
      → Ends mode l (
          then_run
            (waitpid_nohang (suc p) (record { answers = more; errno = e; log = started p l }))
            (first_poll (suc p)))
  unfolding waitpid_nohang
  first_poll-Ends [] e p = Ends.blocks
  first_poll-Ends (fails x ∷ more) e p = Ends.not_waited {p = p} _ (inl refl) refl
  first_poll-Ends (gives zero ∷ more) e p = killed-Ends more e p
  first_poll-Ends (reports q (exited c) ∷ more) e p = Ends.ended_alone {status = exited c} refl
  first_poll-Ends (reports q (signaled c) ∷ more) e p = Ends.ended_alone {status = signaled c} refl
  first_poll-Ends (reports q (stopped c) ∷ more) e p = Ends.ended_alone {status = stopped c} refl
  first_poll-Ends (other ∷ more) e p = Ends.blocks

  child-Ends :
      (more : List Answer) (e : ℕ)
      → Ends mode l (child mode (record { answers = more; errno = e; log = was_forked 0 ∷ l }))
  child-Ends more e = go (is_one mode) refl
    where
      go :
          (b : Bool)
          → is_one mode ≡ b
          → Ends mode l (child mode (record { answers = more; errno = e; log = was_forked 0 ∷ l }))
      go true h = rw h (Ends.child_ends (rw h refl))
      go false h = rw h (Ends.child_ends (rw h refl))

start_and_kill-Ends :
    (mode : ℤ) (more : List Answer) (e : ℕ) (l : List Event)
    → Ends mode l (start_and_kill mode (record { answers = more; errno = e; log = l }))
unfolding start_and_kill fork
start_and_kill-Ends mode [] e l = Ends.blocks
start_and_kill-Ends mode (fails x ∷ more) e l = Ends.not_forked refl
start_and_kill-Ends mode (gives zero ∷ more) e l = child-Ends mode l more e
start_and_kill-Ends mode (gives (suc p) ∷ more) e l = first_poll-Ends mode l more e p
start_and_kill-Ends mode (other ∷ more) e l = Ends.blocks

-- With these answers the parent returns EXIT_SUCCESS.
abbrev pub Succeeds : ℤ → List Answer → Type 0
Succeeds mode answers =
    (e : ℕ) (l : List Event)
    → (w : World) × (start_and_kill mode (record { answers = answers; errno = e; log = l })
        ≡ returns exit_success w)

-- Every run of kill.c with an argument, whatever the kernel answers. The child sleeps for 5 seconds if
-- and only if the mode is 1, and exits with EXIT_SUCCESS. The parent sends SIGINT at most once, to its
-- child, after a second, and only if the child still runs then. It returns EXIT_SUCCESS only where it
-- was told how the child ended, at once or a second after the signal, and has said so; in all other
-- cases it has complained and returns EXIT_FAILURE. And where the kernel tells how the child ended, at
-- once or after the signal, the parent does return EXIT_SUCCESS.
pub kill_lem :
    (mode : ℤ) (more : List Answer) (e : ℕ) (l : List Event)
    → Ends mode l (start_and_kill mode (record { answers = more; errno = e; log = l }))
      × ((p q : ℕ) (status : Status) → Succeeds mode (gives (suc p) ∷ reports q status ∷ more))
      × ((p k q : ℕ) (status : Status)
          → Succeeds mode (gives (suc p) ∷ gives 0 ∷ gives k ∷ reports q status ∷ more))
unfolding start_and_kill fork waitpid_nohang kill
kill_lem mode more e l = (start_and_kill-Ends mode more e l, at_once, after_signal)
  where
    at_once : (p q : ℕ) (status : Status) → Succeeds mode (gives (suc p) ∷ reports q status ∷ more)
    at_once p q (exited c) f log = (_, refl)
    at_once p q (signaled c) f log = (_, refl)
    at_once p q (stopped c) f log = (_, refl)

    after_signal :
        (p k q : ℕ) (status : Status)
        → Succeeds mode (gives (suc p) ∷ gives 0 ∷ gives k ∷ reports q status ∷ more)
    after_signal p k q (exited c) f log = (_, refl)
    after_signal p k q (signaled c) f log = (_, refl)
    after_signal p k q (stopped c) f log = (_, refl)
