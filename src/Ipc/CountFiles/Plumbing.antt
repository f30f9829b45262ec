-- ===== src/Ipc/CountFiles/Plumbing.antt =====
-- How the two programs of count_files.c and count_files_fifo.c are joined, and what EXIT_SUCCESS
-- means.
use Prim.Native.String.{String}
use operating_systems_and_ne.Base.{ℕ, zero, suc, ◌≡◌, refl, true, false, List, [], ◌∷◌}
use operating_systems_and_ne.Os.{
  Fd, Status, exited, signaled, stopped, Answer, fails, gives, pairs, reports, Event, was_piped,
  was_duplicated, was_forked, was_reaped, was_closed, World, Outcome, returns, exits, becomes,
  waits, then_run, pure,
}
use operating_systems_and_ne.Os.Process.{pipe, fork, dup2, exec, waitpid}
use operating_systems_and_ne.Ipc.Children.{wait_report}
use operating_systems_and_ne.Ipc.CountFiles.{
  count_files, both, first_forked, second_forked, parent, redirected,
}

-- A child that `wait_report` has nothing to say of.
abbrev pub IsFine : Status → Type 0
IsFine (exited zero) = Unit
IsFine (exited (suc code)) = ⊥
IsFine (signaled signal) = ⊥
IsFine (stopped signal) = Unit

-- How a run of count_files.c ends, from the log `l` on.
pub data Piped (l : List Event) : Outcome ℕ → Type 0 where
  succeeds :
      {r v : Fd} {p q : ℕ} {s t : Status} {w : World}
      → IsFine s
      → IsFine t
      → w.log
        ≡ was_reaped (suc q) t
          ∷ was_reaped (suc p) s
          ∷ was_closed v
          ∷ was_closed r
          ∷ was_forked (suc q)
          ∷ was_forked (suc p)
          ∷ was_piped r v
          ∷ l
      → Piped l (returns 0 w)
  fails_with : {w : World} → Piped l (returns 1 w)
  child_fails : {w : World} → Piped l (exits 1 w)
  lists :
      {r v : Fd} {w : World}
      → w.log ≡ was_duplicated v 1 ∷ was_closed r ∷ was_forked 0 ∷ was_piped r v ∷ l
      → Piped l (becomes "ls" ("ls" ∷ []) w)
  counts :
      {r v : Fd} {p : ℕ} {w : World}
      → w.log
        ≡ was_duplicated r 0 ∷ was_closed v ∷ was_forked 0 ∷ was_forked (suc p) ∷ was_piped r v ∷ l
      → Piped l (becomes "wc" ("wc" ∷ "-l" ∷ []) w)
  blocks : {w : World} → Piped l (waits w)

-- The second `waitpid` of the parent, after the first child failed, or was fine.
after_failed :
    (l : List Event) (more : List Answer) (e q : ℕ) (log : List Event)
    → Piped l (
        then_run
          (wait_report q (record { answers = more; errno = e; log = log }))
          (λ b. pure (both false b)))
unfolding wait_report waitpid
after_failed l [] e q log = Piped.blocks
after_failed l (fails x ∷ more) e q log = Piped.fails_with
after_failed l (reports p (exited zero) ∷ more) e q log = Piped.fails_with
after_failed l (reports p (exited (suc c)) ∷ more) e q log = Piped.fails_with
after_failed l (reports p (signaled c) ∷ more) e q log = Piped.fails_with
after_failed l (reports p (stopped c) ∷ more) e q log = Piped.fails_with
after_failed l (other ∷ more) e q log = Piped.blocks

module _ (l : List Event) (r v : Fd) where
  abbrev forks : ℕ → ℕ → List Event
  forks p q =
      was_closed v ∷ was_closed r ∷ was_forked (suc q) ∷ was_forked (suc p) ∷ was_piped r v ∷ l

  after_fine :
      (more : List Answer) (e p q : ℕ) (s : Status)
      → IsFine s
      → Piped l (
          then_run
            (wait_report
              (suc q)
              (record { answers = more; errno = e; log = was_reaped (suc p) s ∷ forks p q }))
            (λ b. pure (both true b)))
  unfolding wait_report waitpid
  after_fine [] e p q s f = Piped.blocks
  after_fine (fails x ∷ more) e p q s f = Piped.fails_with
  after_fine (reports k (exited zero) ∷ more) e p q s f = Piped.succeeds {t = exited zero} f tt refl
  after_fine (reports k (exited (suc c)) ∷ more) e p q s f = Piped.fails_with
  after_fine (reports k (signaled c) ∷ more) e p q s f = Piped.fails_with
  after_fine (reports k (stopped c) ∷ more) e p q s f = Piped.succeeds {t = stopped c} f tt refl
  after_fine (other ∷ more) e p q s f = Piped.blocks

  parent-Piped :
      (more : List Answer) (e p q : ℕ)
      → Piped l (
          parent r v (suc p) (suc q) (record {
            answers = more;
            errno = e;
            log = was_forked (suc q) ∷ was_forked (suc p) ∷ was_piped r v ∷ l;
          }))
  unfolding wait_report waitpid
  parent-Piped [] e p q = Piped.blocks
  parent-Piped (fails x ∷ more) e p q = after_failed l more x (suc q) _
  parent-Piped (reports k (exited zero) ∷ more) e p q = after_fine more e p q (exited zero) tt
  parent-Piped (reports k (exited (suc c)) ∷ more) e p q = after_failed l more e (suc q) _
  parent-Piped (reports k (signaled c) ∷ more) e p q = after_failed l more e (suc q) _
  parent-Piped (reports k (stopped c) ∷ more) e p q = after_fine more e p q (stopped c) tt
  parent-Piped (other ∷ more) e p q = Piped.blocks

  -- `execlp` in a child whose standard stream was redirected.
  executed-Piped :
      (more : List Answer) (e : ℕ) (fd std : Fd) (file : String) (args : List String)
      (log : List Event)
      → ((w : World) → w.log ≡ was_duplicated fd std ∷ log → Piped l (becomes file args w))
      → Piped l (
          then_run
            (dup2 fd std (record { answers = more; errno = e; log = log }))
            (redirected file args fd))
  unfolding dup2 exec
  executed-Piped [] e fd std file args log h = Piped.blocks
  executed-Piped (fails x ∷ more) e fd std file args log h = Piped.child_fails
  executed-Piped (gives k ∷ []) e fd std file args log h = Piped.blocks
  executed-Piped (gives k ∷ fails x ∷ more) e fd std file args log h = Piped.child_fails
  executed-Piped (gives k ∷ gives x ∷ more) e fd std file args log h = h _ refl
  executed-Piped (gives k ∷ other ∷ more) e fd std file args log h = Piped.blocks
  executed-Piped (other ∷ more) e fd std file args log h = Piped.blocks

  second-Piped :
      (more : List Answer) (e p : ℕ)
      → Piped l (
          then_run
            (fork
              (record { answers = more; errno = e; log = was_forked (suc p) ∷ was_piped r v ∷ l }))
            (second_forked r v (suc p)))
  unfolding fork
  second-Piped [] e p = Piped.blocks
  second-Piped (fails x ∷ more) e p = Piped.fails_with
  second-Piped (gives zero ∷ more) e p = executed-Piped more e r 0 "wc" _ _ (λ w h. Piped.counts h)
  second-Piped (gives (suc q) ∷ more) e p = parent-Piped more e p q
  second-Piped (other ∷ more) e p = Piped.blocks

  first-Piped :
      (more : List Answer) (e : ℕ)
      → Piped l (
          then_run
            (fork (record { answers = more; errno = e; log = was_piped r v ∷ l }))
            (first_forked r v))
  unfolding fork
  first-Piped [] e = Piped.blocks
  first-Piped (fails x ∷ more) e = Piped.fails_with
  first-Piped (gives zero ∷ more) e = executed-Piped more e v 1 "ls" _ _ (λ w h. Piped.lists h)
  first-Piped (gives (suc p) ∷ more) e = second-Piped more e p
  first-Piped (other ∷ more) e = Piped.blocks

-- Every run of count_files.c, whatever the kernel answers. Where `ls` takes over, its standard
-- output is the end to write of the pipe and the other end is closed; where `wc -l` takes over, its
-- standard input is the end to read and the other end is closed. The parent returns EXIT_SUCCESS
-- only after it has closed both ends and has waited for both children, neither of which a signal
-- ended or exited with a status other than 0.
pub count_files_lem :
    (more : List Answer) (e : ℕ) (l : List Event)
    → Piped l (count_files (record { answers = more; errno = e; log = l }))
unfolding count_files pipe
count_files_lem [] e l = Piped.blocks
count_files_lem (pairs r v ∷ more) e l = first-Piped l r v more e
count_files_lem (fails x ∷ more) e l = Piped.fails_with
count_files_lem (other ∷ more) e l = Piped.blocks
