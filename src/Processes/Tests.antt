-- ===== src/Processes/Tests.antt =====
-- Runs of the programs in 03_processes_src, and their theorems at these runs.
use operating_systems_and_ne.Base.{ℕ, suc, ◌≡◌, List, [], ◌∷◌}
use operating_systems_and_ne.Os.{
  Status, exited, Answer, fails, gives, reports, World, exits, exit_failure,
}
use operating_systems_and_ne.Processes.ForkWait.{main}
use operating_systems_and_ne.Processes.ForkWait.Waiting.{OnlyLate, fork_wait_lem}

-- The child ends, and there is no other.
abbrev one_child : List Answer
one_child = gives 10 ∷ gives 11 ∷ reports 11 (exited 0) ∷ fails 10 ∷ []

fork_wait_lem_example :
    OnlyLate (main (record { answers = one_child; errno = 0; log = [] }))
    × ((self p q x : ℕ) (status : Status) (more : List Answer)
        → (w : World) × (main (record {
          answers = gives self ∷ gives (suc p) ∷ reports q status ∷ fails x ∷ more;
          errno = 0;
          log = [];
        })
            ≡ exits exit_failure w))
fork_wait_lem_example = fork_wait_lem one_child 0 [] tt
