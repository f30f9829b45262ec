-- ===== src/Filesystem/Directory.antt =====
-- ls.c: prints the names in a directory; creat.c: makes an empty file.
pub mod Names
use operating_systems_and_ne.Base.{ℕ, zero, suc, Option, none, some, List, [], ◌∷◌}
use operating_systems_and_ne.Os.{
  exit_success, exit_failure, Bytes, Fd, o_rdonly, o_wronly, o_creat, o_trunc, Answer, gives,
  brings, returns, waits, no_fuel, M, pure, ◌>>=◌, ◌>>◌, ask, with_fuel, open_file, close, perror,
  printf, codes,
}

abbrev pub readdir_answer : Answer → M (Option Bytes)
readdir_answer (brings name) w = returns (some name) w
readdir_answer (gives zero) w = returns none w
readdir_answer a w = waits w

-- `readdir(dirp)`: the name of the next entry, or NULL at the end.
unfoldable pub readdir : Fd → M (Option Bytes)
readdir dirp = ask readdir_answer

-- The loop of `main` of ls.c.
abbrev pub entry_read : M ℕ → Fd → Option Bytes → M ℕ
entry_read loop dirp none = do close dirp; pure exit_success
entry_read loop dirp (some d_name) = do printf "%s\n" (d_name ∷ []) []; loop

pub list_loop : ℕ → Fd → M ℕ
list_loop zero dirp = no_fuel
list_loop (suc fuel) dirp = readdir dirp >>= entry_read (list_loop fuel dirp) dirp

-- `opendir` gives a directory stream, here a descriptor, or NULL.
abbrev pub dir_opened : Option Fd → M ℕ
dir_opened none = do perror "opendir"; pure exit_failure
dir_opened (some dirp) = with_fuel (λ f. list_loop f dirp)

abbrev pub dirpath : List Bytes → Bytes
dirpath (name ∷ path ∷ more) = path
dirpath argv = codes "."

-- `opendir` opens the directory for reading.
pub ls : List Bytes → M ℕ
ls argv = do dirp ← open_file (dirpath argv) (o_rdonly ∷ []) 0; dir_opened dirp

-- `main` of creat.c; `creat(path, mode)` is `open` with these flags.
abbrev pub created : Option Fd → M ℕ
created none = do perror "creat"; pure exit_failure
created (some fd) = do close fd; pure exit_success

pub create : List Bytes → M ℕ
create (name ∷ path ∷ more) = do
  fd ← open_file path (o_wronly ∷ o_creat ∷ o_trunc ∷ []) 0o666
  created fd
create argv = do printf "Usage: %s <filepath>\n" argv []; pure exit_failure
