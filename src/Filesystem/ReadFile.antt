-- ===== src/Filesystem/ReadFile.antt =====
-- read.c: the size of a file, by reading it.
pub mod Size
use operating_systems_and_ne.Base.{ℕ, zero, suc, Option, none, some, List, [], ◌∷◌, length}
use operating_systems_and_ne.Os.{
  exit_success, exit_failure, Bytes, Fd, o_rdonly, no_fuel, M, pure, ◌>>=◌, ◌>>◌, with_fuel,
  add_int, read, open_file, close, perror, printf,
}

abbrev pub buff_size : ℕ
buff_size = 1024

-- The loop of `readfile`; `none` is -1.
abbrev after_read : (ℕ → M (Option ℕ)) → ℕ → Option Bytes → M (Option ℕ)
after_read loop total_size none = pure none
after_read loop total_size (some []) = pure (some total_size)
after_read loop total_size (some (b ∷ bs)) = do
  total ← add_int total_size (length (b ∷ bs))
  loop total

pub readfile_loop : ℕ → Fd → ℕ → M (Option ℕ)
readfile_loop zero fd total_size = no_fuel
readfile_loop (suc fuel) fd total_size =
    read fd buff_size >>= after_read (readfile_loop fuel fd) total_size

pub readfile : Fd → M (Option ℕ)
readfile fd = with_fuel (λ f. readfile_loop f fd 0)

abbrev report : Bytes → Fd → Option ℕ → M ℕ
report path fd none = do perror "readfile"; close fd; pure exit_failure
report path fd (some filesize) = do
  printf "sizeof(%s) = %d\n" (path ∷ []) (filesize ∷ [])
  close fd
  pure exit_success

abbrev opened : Bytes → Option Fd → M ℕ
opened path none = do perror "open"; pure exit_failure
opened path (some fd) = do filesize ← readfile fd; report path fd filesize

pub main : List Bytes → M ℕ
main (name ∷ path ∷ more) = do fd ← open_file path (o_rdonly ∷ []) 0; opened path fd
main argv = do printf "Usage: %s <filepath>\n" argv []; pure exit_failure
