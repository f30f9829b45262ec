-- ===== src/Ipc/CountFiles/Fifo.antt =====
-- How count_files_fifo.c joins its programs, and what EXIT_SUCCESS means.
use Prim.Native.String.{String}
use operating_systems_and_ne.Base.{
  ℕ, zero, suc, ◌≡◌, ◌⊎◌, inl, inr, refl, true, false, List, [], ◌∷◌, ◌++◌,
}
use operating_systems_and_ne.Os.{
  Fd, Status, exited, signaled, stopped, Answer, fails, gives, reports, Event, was_duplicated,
  was_forked, was_reaped, was_made, unlinked, was_opened, failed, complained, Flag, o_rdonly,
  o_wronly, codes, World, Outcome, returns, exits, becomes, waits, then_run, open_file, ◌>>=◌,
}
use operating_systems_and_ne.Os.Process.{fork, dup2, exec, waitpid, mkfifo, unlink}
use operating_systems_and_ne.Ipc.Children.{wait_report}
use operating_systems_and_ne.Ipc.CountFiles.{
  both, redirected, fifo_child, removed, fifo_parent, fifo_second, fifo_first, count_files_fifo,
}
use operating_systems_and_ne.Ipc.CountFiles.Plumbing.{IsFine}

-- What `unlink` left in the log: it removed the FIFO, or it failed.
abbrev pub Removal : List Event → Type 0
Removal u = (u ≡ unlinked "fifo" ∷ []) ⊎ ((e : ℕ) × (u ≡ complained "unlink" ∷ failed e ∷ []))

-- How a run of count_files_fifo.c ends, from the log `l` on.
pub data Joined (l : List Event) : Outcome ℕ → Type 0 where
  succeeds :
      (u : List Event) (p q : ℕ) (s t : Status) {w : World}
      → IsFine s
      → IsFine t
      → Removal u
      → w.log
        ≡ u
          ++ (was_reaped (suc q) t
              ∷ was_reaped (suc p) s
              ∷ was_forked (suc q)
              ∷ was_forked (suc p)
              ∷ was_made "fifo"
              ∷ l)
      → Joined l (returns 0 w)
  fails_with : {w : World} → Joined l (returns 1 w)
  child_fails : {w : World} → Joined l (exits 1 w)
  lists :
      {fd : Fd} {w : World}
      → w.log
        ≡ was_duplicated fd 1
          ∷ was_opened (codes "fifo") (o_wronly ∷ []) 0 fd
          ∷ was_forked 0
          ∷ was_made "fifo"
          ∷ l
      → Joined l (becomes "ls" ("ls" ∷ []) w)
  counts :
      {fd : Fd} {p : ℕ} {w : World}
      → w.log
        ≡ was_duplicated fd 0
          ∷ was_opened (codes "fifo") (o_rdonly ∷ []) 0 fd
          ∷ was_forked 0
          ∷ was_forked (suc p)
          ∷ was_made "fifo"
          ∷ l
      → Joined l (becomes "wc" ("wc" ∷ "-l" ∷ []) w)
  blocks : {w : World} → Joined l (waits w)

-- The parent after a child failed.
remove_failed :
    (l : List Event) (more : List Answer) (e : ℕ) (log : List Event)
    → Joined l (
        then_run
          (unlink "fifo" (record { answers = more; errno = e; log = log }))
          (λ u. removed u 1))
unfolding unlink
remove_failed l [] e log = Joined.blocks
remove_failed l (fails x ∷ more) e log = Joined.fails_with
remove_failed l (gives x ∷ more) e log = Joined.fails_with
remove_failed l (other ∷ more) e log = Joined.blocks

after_failed :
    (l : List Event) (more : List Answer) (e q : ℕ) (log : List Event)
    → Joined l (
        then_run
          (wait_report q (record { answers = more; errno = e; log = log }))
          (λ b. unlink "fifo" >>= λ u. removed u (both false b)))
unfolding wait_report waitpid
after_failed l [] e q log = Joined.blocks
after_failed l (fails x ∷ more) e q log = remove_failed l more x _
after_failed l (reports p (exited zero) ∷ more) e q log = remove_failed l more e _
after_failed l (reports p (exited (suc c)) ∷ more) e q log = remove_failed l more e _
after_failed l (reports p (signaled c) ∷ more) e q log = remove_failed l more e _
after_failed l (reports p (stopped c) ∷ more) e q log = remove_failed l more e _
after_failed l (other ∷ more) e q log = Joined.blocks

module _ (l : List Event) where
  abbrev forks : ℕ → ℕ → List Event
  forks p q = was_forked (suc q) ∷ was_forked (suc p) ∷ was_made "fifo" ∷ l

  remove_fine :
      (more : List Answer) (e p q : ℕ) (s t : Status)
      → IsFine s
      → IsFine t
      → Joined l (
          then_run
            (unlink "fifo" (record {
              answers = more;
              errno = e;
              log = was_reaped (suc q) t ∷ was_reaped (suc p) s ∷ forks p q;
            }))
            (λ u. removed u 0))
  unfolding unlink
  remove_fine [] e p q s t f g = Joined.blocks
  remove_fine (fails x ∷ more) e p q s t f g =
      Joined.succeeds (complained "unlink" ∷ failed x ∷ []) p q s t f g (inr (x, refl)) refl
  remove_fine (gives x ∷ more) e p q s t f g =
      Joined.succeeds (unlinked "fifo" ∷ []) p q s t f g (inl refl) refl
  remove_fine (other ∷ more) e p q s t f g = Joined.blocks

  after_fine :
      (more : List Answer) (e p q : ℕ) (s : Status)
      → IsFine s
      → Joined l (
          then_run
            (wait_report
              (suc q)
              (record { answers = more; errno = e; log = was_reaped (suc p) s ∷ forks p q }))
            (λ b. unlink "fifo" >>= λ u. removed u (both true b)))
  unfolding wait_report waitpid
  after_fine [] e p q s f = Joined.blocks
  after_fine (fails x ∷ more) e p q s f = remove_failed l more x _
  after_fine (reports k (exited zero) ∷ more) e p q s f =
      remove_fine more e p q s (exited zero) f tt
  after_fine (reports k (exited (suc c)) ∷ more) e p q s f = remove_failed l more e _
  after_fine (reports k (signaled c) ∷ more) e p q s f = remove_failed l more e _
  after_fine (reports k (stopped c) ∷ more) e p q s f = remove_fine more e p q s (stopped c) f tt
  after_fine (other ∷ more) e p q s f = Joined.blocks

  parent-Joined :
      (more : List Answer) (e p q : ℕ)
      → Joined l
          (fifo_parent (suc p) (suc q) (record { answers = more; errno = e; log = forks p q }))
  unfolding wait_report waitpid
  parent-Joined [] e p q = Joined.blocks
  parent-Joined (fails x ∷ more) e p q = after_failed l more x (suc q) _
  parent-Joined (reports k (exited zero) ∷ more) e p q = after_fine more e p q (exited zero) tt
  parent-Joined (reports k (exited (suc c)) ∷ more) e p q = after_failed l more e (suc q) _
  parent-Joined (reports k (signaled c) ∷ more) e p q = after_failed l more e (suc q) _
  parent-Joined (reports k (stopped c) ∷ more) e p q = after_fine more e p q (stopped c) tt
  parent-Joined (other ∷ more) e p q = Joined.blocks

  executed-Joined :
      (more : List Answer) (e : ℕ) (fd std : Fd) (file : String) (args : List String)
      (log : List Event)
      → ((w : World) → w.log ≡ was_duplicated fd std ∷ log → Joined l (becomes file args w))
      → Joined l (
          then_run
            (dup2 fd std (record { answers = more; errno = e; log = log }))
            (redirected file args fd))
  unfolding dup2 exec
  executed-Joined [] e fd std file args log h = Joined.blocks
  executed-Joined (fails x ∷ more) e fd std file args log h = Joined.child_fails
  executed-Joined (gives k ∷ []) e fd std file args log h = Joined.blocks
  executed-Joined (gives k ∷ fails x ∷ more) e fd std file args log h = Joined.child_fails
  executed-Joined (gives k ∷ gives x ∷ more) e fd std file args log h = h _ refl
  executed-Joined (gives k ∷ other ∷ more) e fd std file args log h = Joined.blocks
  executed-Joined (other ∷ more) e fd std file args log h = Joined.blocks

  child-Joined :
      (more : List Answer) (e : ℕ) (flag : Flag) (std : Fd) (file : String) (args : List String)
      (log : List Event)
      → ((fd : Fd) (w : World)
          → w.log ≡ was_duplicated fd std ∷ was_opened (codes "fifo") (flag ∷ []) 0 fd ∷ log
          → Joined l (becomes file args w))
      → Joined l (fifo_child flag file args std (record { answers = more; errno = e; log = log }))
  unfolding open_file
  child-Joined [] e flag std file args log h = Joined.blocks
  child-Joined (fails x ∷ more) e flag std file args log h = Joined.child_fails
  child-Joined (gives fd ∷ more) e flag std file args log h =
      executed-Joined more e fd std file args _ (h fd)
  child-Joined (other ∷ more) e flag std file args log h = Joined.blocks

  second-Joined :
      (more : List Answer) (e p : ℕ)
      → Joined l (
          then_run
            (fork (record {
              answers = more;
              errno = e;
              log = was_forked (suc p) ∷ was_made "fifo" ∷ l;
            }))
            (fifo_second (suc p)))
  unfolding fork
  second-Joined [] e p = Joined.blocks
  second-Joined (fails x ∷ more) e p = Joined.fails_with
  second-Joined (gives zero ∷ more) e p =
      child-Joined more e o_rdonly 0 "wc" _ _ (λ fd w h. Joined.counts h)
  second-Joined (gives (suc q) ∷ more) e p = parent-Joined more e p q
  second-Joined (other ∷ more) e p = Joined.blocks

  first-Joined :
      (more : List Answer) (e : ℕ)
      → Joined l (
          then_run
            (fork (record { answers = more; errno = e; log = was_made "fifo" ∷ l }))
            fifo_first)
  unfolding fork
  first-Joined [] e = Joined.blocks
  first-Joined (fails x ∷ more) e = Joined.fails_with
  first-Joined (gives zero ∷ more) e =
      child-Joined more e o_wronly 1 "ls" _ _ (λ fd w h. Joined.lists h)
  first-Joined (gives (suc p) ∷ more) e = second-Joined more e p
  first-Joined (other ∷ more) e = Joined.blocks

-- Every run of count_files_fifo.c, whatever the kernel answers. Where `ls` takes over, its standard
-- output is the FIFO opened for writing; where `wc -l` takes over, its standard input is the FIFO
-- opened for reading. The parent returns EXIT_SUCCESS only after it has waited for both children,
-- neither of which a signal ended or exited with a status other than 0, and has then called `unlink`
-- on the FIFO, which may fail.
pub count_files_fifo_lem :
    (more : List Answer) (e : ℕ) (l : List Event)
    → Joined l (count_files_fifo (record { answers = more; errno = e; log = l }))
unfolding count_files_fifo mkfifo
count_files_fifo_lem [] e l = Joined.blocks
count_files_fifo_lem (fails x ∷ more) e l = Joined.fails_with
count_files_fifo_lem (gives x ∷ more) e l = first-Joined l more e
count_files_fifo_lem (other ∷ more) e l = Joined.blocks
