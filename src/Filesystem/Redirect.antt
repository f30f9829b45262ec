-- ===== src/Filesystem/Redirect.antt =====
-- dup2.c: runs `ls -l` with its standard output in a file. After `fork` a run goes on as the parent or,
-- where the answer is 0, as the child.
pub mod Listing
use Prim.Native.String.{String}
use operating_systems_and_ne.Base.{
  ℕ, zero, suc, Bool, true, false, Option, none, some, List, [], ◌∷◌,
}
use operating_systems_and_ne.Os.{
  exit_success, exit_failure, Bytes, Fd, Status, exited, signaled, stopped, o_wronly, o_creat,
  o_trunc, undefined, M, pure, exit, ◌>>=◌, ◌>>◌, open_file, close, perror, printf,
}
use operating_systems_and_ne.Os.Process.{fork, dup2, exec, wait}

abbrev pub stdout_fileno : Fd
stdout_fileno = 1

-- `execvp(args[0], args)`; without `args[0]` it has no file to look for.
abbrev pub execvp : List String → M (Option (Unit {0}))
execvp [] = undefined
execvp (file ∷ args) = exec file (file ∷ args)

-- `redirect_stdout_and_run`: `true` is its 0, `false` its -1.
abbrev pub executed : Option (Unit {0}) → M Bool
executed none = pure false
executed (some _) = exit exit_success

abbrev pub duplicated : List String → Option (Unit {0}) → M Bool
duplicated args none = pure false
duplicated args (some _) = do err ← execvp args; executed err

abbrev pub waited : Option (ℕ × Status) → Bool
waited none = false
waited (some (pid, exited zero)) = true
waited (some (pid, exited (suc status))) = false
waited (some (pid, signaled signal)) = false
waited (some (pid, stopped signal)) = false

abbrev pub forked : List String → Fd → Option ℕ → M Bool
forked args outfd (some zero) = do err ← dup2 outfd stdout_fileno; duplicated args err
forked args outfd none = pure false
forked args outfd (some (suc pid)) = do status ← wait; pure (waited status)

-- The first argument, `path`, is not used.
pub redirect_stdout_and_run : String → List String → Fd → M Bool
redirect_stdout_and_run path args outfd = do pid ← fork; forked args outfd pid

abbrev pub ls : List String
ls = "ls" ∷ "-l" ∷ []

abbrev pub finish : Fd → Bool → M ℕ
finish fd false = do perror "redirect_stdout_and_run"; close fd; pure exit_failure
finish fd true = do close fd; pure exit_success

abbrev pub opened : Option Fd → M ℕ
opened none = do perror "open"; pure exit_failure
opened (some fd) = do done ← redirect_stdout_and_run "ls" ls fd; finish fd done

pub main : List Bytes → M ℕ
main (name ∷ output ∷ more) = do
  fd ← open_file output (o_wronly ∷ o_creat ∷ o_trunc ∷ []) 0o666
  opened fd
main argv = do printf "Usage: %s <output>\n" argv []; pure exit_failure
