-- ===== src/Filesystem/Redirect/Listing.antt =====
-- What the runs of dup2.c come to, as the parent and as the child.
use operating_systems_and_ne.Base.{
  ℕ, zero, suc, ◌≡◌, refl, Bool, true, false, some, List, [], ◌∷◌, ◌++◌, if◌then◌else◌,
}
use operating_systems_and_ne.Os.{
  exit_success, exit_failure, Bytes, Fd, Status, exited, signaled, stopped, o_wronly, o_creat,
  o_trunc, Answer, fails, gives, reports, Event, failed, was_opened, was_closed, was_forked,
  was_duplicated, was_reaped, complained, World, Outcome, returns, becomes, waits, then_run,
  open_file,
}
use operating_systems_and_ne.Os.Logs.{closes}
use operating_systems_and_ne.Os.Process.{fork, dup2, exec, wait}
use operating_systems_and_ne.Filesystem.Redirect.{
  redirect_stdout_and_run, forked, ls, finish, opened, main,
}

-- `open` for writing, from the log `l` on.
abbrev pub opening : Bytes → Fd → List Event → List Event
opening output fd l = was_opened output (o_wronly ∷ o_creat ∷ o_trunc ∷ []) 0o666 fd ∷ l

-- How a run of dup2.c with an argument `output` ends, from the log `l` on.
pub data Listed (output : Bytes) (l : List Event) : Outcome ℕ → Type 0 where
  listed :
      {fd p q : ℕ} {w : World}
      → w.log ≡ was_closed fd ∷ was_reaped q (exited 0) ∷ was_forked (suc p) ∷ opening output fd l
      → Listed output l (returns exit_success w)
  lists :
      {fd : ℕ} {w : World}
      → w.log ≡ was_duplicated fd 1 ∷ was_forked 0 ∷ opening output fd l
      → Listed output l (becomes "ls" ("ls" ∷ "-l" ∷ []) w)
  not_opened :
      {e : ℕ} {w : World}
      → w.log ≡ complained "open" ∷ failed e ∷ l
      → Listed output l (returns exit_failure w)
  not_listed :
      {fd : ℕ} {w : World} (what : List Event)
      → ((g : Fd) → closes g what ≡ 0)
      → w.log ≡ was_closed fd ∷ complained "redirect_stdout_and_run" ∷ (what ++ opening output fd l)
      → Listed output l (returns exit_failure w)
  blocks : {w : World} → Listed output l (waits w)

module _ (output : Bytes) (l : List Event) (fd : Fd) where
  child-Listed :
      (more : List Answer) (e : ℕ)
      → Listed output l (
          then_run
            (forked ls fd
              (some 0)
              (record { answers = more; errno = e; log = was_forked 0 ∷ opening output fd l }))
            (finish fd))
  unfolding dup2 exec
  child-Listed [] e = Listed.blocks
  child-Listed (fails x ∷ more) e =
      Listed.not_listed (failed x ∷ was_forked 0 ∷ []) (λ g. refl) refl
  child-Listed (gives k ∷ []) e = Listed.blocks
  child-Listed (gives k ∷ fails x ∷ more) e =
      Listed.not_listed (failed x ∷ was_duplicated fd 1 ∷ was_forked 0 ∷ []) (λ g. refl) refl
  child-Listed (gives k ∷ gives x ∷ more) e = Listed.lists refl
  child-Listed (gives k ∷ other ∷ more) e = Listed.blocks
  child-Listed (other ∷ more) e = Listed.blocks

  parent-Listed :
      (more : List Answer) (e p : ℕ)
      → Listed output l (
          then_run
            (forked ls fd (some (suc p)) (record {
              answers = more;
              errno = e;
              log = was_forked (suc p) ∷ opening output fd l;
            }))
            (finish fd))
  unfolding wait
  parent-Listed [] e p = Listed.blocks
  parent-Listed (fails x ∷ more) e p =
      Listed.not_listed (failed x ∷ was_forked (suc p) ∷ []) (λ g. refl) refl
  parent-Listed (reports q (exited zero) ∷ more) e p = Listed.listed refl
  parent-Listed (reports q (exited (suc code)) ∷ more) e p =
      Listed.not_listed (was_reaped q (exited (suc code)) ∷ was_forked (suc p) ∷ []) (λ g. refl)
        refl
  parent-Listed (reports q (signaled x) ∷ more) e p =
      Listed.not_listed (was_reaped q (signaled x) ∷ was_forked (suc p) ∷ []) (λ g. refl) refl
  parent-Listed (reports q (stopped x) ∷ more) e p =
      Listed.not_listed (was_reaped q (stopped x) ∷ was_forked (suc p) ∷ []) (λ g. refl) refl
  parent-Listed (other ∷ more) e p = Listed.blocks

  opened-Listed :
      (more : List Answer) (e : ℕ)
      → Listed output l
          (opened (some fd) (record { answers = more; errno = e; log = opening output fd l }))
  unfolding redirect_stdout_and_run fork
  opened-Listed [] e = Listed.blocks
  opened-Listed (fails x ∷ more) e = Listed.not_listed (failed x ∷ []) (λ g. refl) refl
  opened-Listed (gives zero ∷ more) e = child-Listed more e
  opened-Listed (gives (suc p) ∷ more) e = parent-Listed more e p
  opened-Listed (other ∷ more) e = Listed.blocks

dup2_main-Listed :
    (name output : Bytes) (rest : List Bytes) (more : List Answer) (e : ℕ) (l : List Event)
    → Listed output l (main (name ∷ output ∷ rest) (record { answers = more; errno = e; log = l }))
unfolding main open_file
dup2_main-Listed name output rest [] e l = Listed.blocks
dup2_main-Listed name output rest (fails x ∷ more) e l = Listed.not_opened refl
dup2_main-Listed name output rest (gives fd ∷ more) e l = opened-Listed output l fd more e
dup2_main-Listed name output rest (other ∷ more) e l = Listed.blocks

-- Whether the child ended as it should.
abbrev pub is_fine : Status → Bool
is_fine (exited zero) = true
is_fine status = false

-- Every run of dup2.c with an argument, whatever the kernel answers. Where `ls -l` takes over, it is in
-- the child, and its standard output is the file that was opened for writing, created and cut if need
-- be. EXIT_SUCCESS is returned only by the parent, after a child that exited with 0. Whoever returns
-- has closed the file once, if it was opened, and has complained if the status is EXIT_FAILURE. And
-- once the file is opened, the child is made and `wait` tells how it ended, the parent does return,
-- EXIT_SUCCESS if and only if the child exited with 0.
pub dup2_main_lem :
    (name output : Bytes) (rest : List Bytes) (more : List Answer) (e : ℕ) (l : List Event)
    → Listed output l (main (name ∷ output ∷ rest) (record { answers = more; errno = e; log = l }))
      × ((fd p q : ℕ) (status : Status)
          → (w : World) × (main (name ∷ output ∷ rest) (record {
            answers = gives fd ∷ gives (suc p) ∷ reports q status ∷ more;
            errno = e;
            log = l;
          })
              ≡ returns (if is_fine status then exit_success else exit_failure) w))
unfolding main open_file redirect_stdout_and_run fork wait
dup2_main_lem name output rest more e l = (dup2_main-Listed name output rest more e l, ended)
  where
    ended :
        (fd p q : ℕ) (status : Status)
        → (w : World) × (main (name ∷ output ∷ rest) (record {
          answers = gives fd ∷ gives (suc p) ∷ reports q status ∷ more;
          errno = e;
          log = l;
        })
            ≡ returns (if is_fine status then exit_success else exit_failure) w)
    ended fd p q (exited zero) = (_, refl)
    ended fd p q (exited (suc code)) = (_, refl)
    ended fd p q (signaled x) = (_, refl)
    ended fd p q (stopped x) = (_, refl)
