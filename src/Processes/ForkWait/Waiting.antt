-- ===== src/Processes/ForkWait/Waiting.antt =====
-- fork_wait.c waits for two children and starts one.
use operating_systems_and_ne.Base.{ℕ, zero, suc, ◌≡◌, refl, some, List, [], ◌∷◌}
use operating_systems_and_ne.Os.{
  exit_failure, Status, Answer, fails, gives, reports, Event, was_reaped, printed, failed, World,
  Outcome, returns, exits, waits, then_run,
}
use operating_systems_and_ne.Os.Process.{fork, wait, number_call}
use operating_systems_and_ne.Processes.ForkWait.{second_wait, forked, main}

-- The kernel tells of a child at most once: it forgets it when `wait` has told of it.
abbrev pub TellsAtMost : ℕ → List Answer → Type 0
TellsAtMost n [] = Unit
TellsAtMost zero (reports pid status ∷ more) = ⊥
TellsAtMost (suc n) (reports pid status ∷ more) = TellsAtMost n more
TellsAtMost n (other ∷ more) = TellsAtMost n more

-- If the run returns, its first `wait` failed and the second told of the child.
abbrev pub OnlyLate : Outcome ℕ → Type 0
OnlyLate (returns code w) =
    (q e : ℕ) × (status : Status) × (before : List Event) × (w.log
      ≡ was_reaped q status
        ∷ printed "process -1 finished with exit code: %d\n" [] (0 ∷ [])
        ∷ failed e
        ∷ before)
OnlyLate (exits code w) = Unit
OnlyLate (waits w) = Unit
OnlyLate o = ⊥

-- The second `wait` after one that told of the child, and after one that failed.
after_child :
    (more : List Answer) (e : ℕ) (l : List Event)
    → TellsAtMost 0 more
    → OnlyLate (then_run (wait (record { answers = more; errno = e; log = l })) second_wait)
unfolding wait
after_child [] e l once = tt
after_child (fails x ∷ more) e l once = tt
after_child (reports q status ∷ more) e l once = absurd once
after_child (other ∷ more) e l once = tt

after_failure :
    (more : List Answer) (e x : ℕ) (l : List Event)
    → OnlyLate (
        then_run
          (wait (record {
            answers = more;
            errno = e;
            log = printed "process -1 finished with exit code: %d\n" [] (0 ∷ []) ∷ failed x ∷ l;
          }))
          second_wait)
unfolding wait
after_failure [] e x l = tt
after_failure (fails y ∷ more) e x l = tt
after_failure (reports q status ∷ more) e x l = (q, x, status, l, refl)
after_failure (other ∷ more) e x l = tt

parent-OnlyLate :
    (more : List Answer) (e p : ℕ) (l : List Event)
    → TellsAtMost 1 more
    → OnlyLate (forked (some (suc p)) (record { answers = more; errno = e; log = l }))
unfolding wait
parent-OnlyLate [] e p l once = tt
parent-OnlyLate (fails x ∷ more) e p l once = after_failure more x x _
parent-OnlyLate (reports q status ∷ more) e p l once = after_child more e _ once
parent-OnlyLate (other ∷ more) e p l once = tt

child-OnlyLate :
    (more : List Answer) (e : ℕ) (l : List Event)
    → OnlyLate (forked (some zero) (record { answers = more; errno = e; log = l }))
unfolding number_call
child-OnlyLate [] e l = tt
child-OnlyLate (gives c ∷ []) e l = tt
child-OnlyLate (gives c ∷ gives d ∷ more) e l = tt
child-OnlyLate (gives c ∷ other ∷ more) e l = tt
child-OnlyLate (other ∷ more) e l = tt

forked-OnlyLate :
    (more : List Answer) (e : ℕ) (l : List Event)
    → TellsAtMost 1 more
    → OnlyLate (then_run (fork (record { answers = more; errno = e; log = l })) forked)
unfolding fork
forked-OnlyLate [] e l once = tt
forked-OnlyLate (fails x ∷ more) e l once = tt
forked-OnlyLate (gives zero ∷ more) e l once = child-OnlyLate more e _
forked-OnlyLate (gives (suc p) ∷ more) e l once = parent-OnlyLate more e p _ once
forked-OnlyLate (other ∷ more) e l once = tt

main-OnlyLate :
    (answers : List Answer) (e : ℕ) (l : List Event)
    → TellsAtMost 1 answers
    → OnlyLate (main (record { answers = answers; errno = e; log = l }))
unfolding main number_call
main-OnlyLate [] e l once = tt
main-OnlyLate (gives self ∷ more) e l once = forked-OnlyLate more e _ once
main-OnlyLate (other ∷ more) e l once = tt

-- fork_wait.c waits twice for its one child. If the kernel tells of a child at most once, the program
-- returns 0 only where the first `wait` failed and the second told of the child. Where all goes well,
-- the first `wait` tells of the child, the second one fails, and the parent exits with EXIT_FAILURE.
pub fork_wait_lem :
    (answers : List Answer) (e : ℕ) (l : List Event)
    → TellsAtMost 1 answers
    → OnlyLate (main (record { answers = answers; errno = e; log = l }))
      × ((self p q x : ℕ) (status : Status) (more : List Answer)
          → (w : World) × (main (record {
            answers = gives self ∷ gives (suc p) ∷ reports q status ∷ fails x ∷ more;
            errno = e;
            log = l;
          })
              ≡ exits exit_failure w))
unfolding main number_call fork wait
fork_wait_lem answers e l once =
    (main-OnlyLate answers e l once, λ self p q x status more. (_, refl))
