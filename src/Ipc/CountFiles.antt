-- ===== src/Ipc/CountFiles.antt =====
-- count_files.c and count_files_fifo.c: `ls` and `wc -l`, joined by a pipe or by a FIFO. A run is
-- the parent's, or goes on as one of the children after its `fork`.
pub mod Plumbing
pub mod Fifo
use Prim.Native.String.{String}
use operating_systems_and_ne.Base.{
  ℕ, zero, suc, Bool, true, false, ◌&&◌, Option, none, some, List, [], ◌∷◌, if◌then◌else◌,
}
use operating_systems_and_ne.Os.{
  exit_success, exit_failure, Fd, Flag, o_rdonly, o_wronly, M, pure, exit, ◌>>=◌, ◌>>◌, open_file,
  close, perror, codes,
}
use operating_systems_and_ne.Os.Process.{pipe, fork, dup2, exec, mkfifo, unlink}
use operating_systems_and_ne.Ipc.Children.{wait_report}

abbrev pub stdin_fileno : Fd
stdin_fileno = 0

abbrev pub stdout_fileno : Fd
stdout_fileno = 1

-- The end of a child: `execlp`, where `dup2` did not fail.
abbrev pub executed : Fd → Option (Unit {0}) → M ℕ
executed fd none = do perror "execve"; close fd; exit exit_failure
executed fd (some _) = do close fd; exit exit_success

abbrev pub redirected : String → List String → Fd → Option (Unit {0}) → M ℕ
redirected file args fd none = do perror "dup2"; close fd; exit exit_failure
redirected file args fd (some _) = do e ← exec file args; executed fd e

-- The children of count_files.c.
abbrev pub list_child : Fd → Fd → M ℕ
list_child rfd wfd = do close rfd; d ← dup2 wfd stdout_fileno; redirected "ls" ("ls" ∷ []) wfd d

abbrev pub count_child : Fd → Fd → M ℕ
count_child rfd wfd = do
  close wfd
  d ← dup2 rfd stdin_fileno
  redirected "wc" ("wc" ∷ "-l" ∷ []) rfd d

-- The parent waits for both children.
abbrev pub both : Bool → Bool → ℕ
both a b = if a && b then exit_success else exit_failure

abbrev pub parent : Fd → Fd → ℕ → ℕ → M ℕ
parent rfd wfd p q = do close rfd; close wfd; a ← wait_report p; b ← wait_report q; pure (both a b)

abbrev pub second_forked : Fd → Fd → ℕ → Option ℕ → M ℕ
second_forked rfd wfd p none = do perror "fork"; pure exit_failure
second_forked rfd wfd p (some zero) = count_child rfd wfd
second_forked rfd wfd p (some (suc q)) = parent rfd wfd p (suc q)

abbrev pub first_forked : Fd → Fd → Option ℕ → M ℕ
first_forked rfd wfd none = do perror "fork"; pure exit_failure
first_forked rfd wfd (some zero) = list_child rfd wfd
first_forked rfd wfd (some (suc p)) = do q ← fork; second_forked rfd wfd (suc p) q

abbrev pub piped : Option (Fd × Fd) → M ℕ
piped none = do perror "pipe"; pure exit_failure
piped (some (rfd, wfd)) = do p ← fork; first_forked rfd wfd p

-- `main` of count_files.c
pub count_files : M ℕ
count_files = do fd ← pipe; piped fd

-- The children of count_files_fifo.c: `std` is the descriptor to redirect.
abbrev pub opened : String → List String → Fd → Option Fd → M ℕ
opened file args std none = do perror "open"; exit exit_failure
opened file args std (some fd) = do d ← dup2 fd std; redirected file args fd d

abbrev pub fifo_child : Flag → String → List String → Fd → M ℕ
fifo_child flag file args std = do
  fd ← open_file (codes "fifo") (flag ∷ []) 0
  opened file args std fd

abbrev pub removed : Option (Unit {0}) → ℕ → M ℕ
removed none status = do perror "unlink"; pure status
removed (some _) status = pure status

abbrev pub fifo_parent : ℕ → ℕ → M ℕ
fifo_parent p q = do a ← wait_report p; b ← wait_report q; u ← unlink "fifo"; removed u (both a b)

abbrev pub fifo_second : ℕ → Option ℕ → M ℕ
fifo_second p none = do perror "fork"; pure exit_failure
fifo_second p (some zero) = fifo_child o_rdonly "wc" ("wc" ∷ "-l" ∷ []) stdin_fileno
fifo_second p (some (suc q)) = fifo_parent p (suc q)

abbrev pub fifo_first : Option ℕ → M ℕ
fifo_first none = do perror "fork"; pure exit_failure
fifo_first (some zero) = fifo_child o_wronly "ls" ("ls" ∷ []) stdout_fileno
fifo_first (some (suc p)) = do q ← fork; fifo_second (suc p) q

abbrev pub made : Option (Unit {0}) → M ℕ
made none = do perror "mkfifo"; pure exit_failure
made (some _) = do p ← fork; fifo_first p

-- `main` of count_files_fifo.c
pub count_files_fifo : M ℕ
count_files_fifo = do m ← mkfifo "fifo"; made m
