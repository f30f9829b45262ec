-- ===== src/Filesystem/FileInfo.antt =====
-- finfo.c: the type and the permissions of a file, from its mode.
pub mod Permissions
pub mod Listing
use Prim.Native.Nat.{bit_and}
use Prim.Native.String.{String}
use operating_systems_and_ne.Base.{
  ℕ, Bool, Option, none, some, List, [], ◌∷◌, ◌++◌, drop, set, ◌==◌, if◌then◌else◌,
}
use operating_systems_and_ne.Os.{
  exit_success, exit_failure, Bytes, Stat, returns, undefined, M, pure, ◌>>=◌, ◌>>◌, stat, perror,
  printf, codes, c_string,
}

abbrev pub perm_size : ℕ
perm_size = 10

abbrev pub s_ifmt : ℕ
s_ifmt = 0o170000

-- `filetype`; the constants are those of Linux.
pub filetype : ℕ → String
filetype mode =
    let type = bit_and mode s_ifmt in
    if type == 0o100000
    then "regular"
    else if type == 0o040000
    then "directory"
    else if type == 0o020000
    then "character device"
    else if type == 0o060000
    then "block device"
    else if type == 0o010000
    then "FIFO"
    else if type == 0o120000
    then "symbolic link"
    else if type == 0o140000
    then "socket"
    else "unknown"

abbrev pub zeroperms : Bytes
zeroperms = b'-' ∷ b'-' ∷ b'-' ∷ b'-' ∷ b'-' ∷ b'-' ∷ b'-' ∷ b'-' ∷ b'-' ∷ []

-- `strncpy(out, zeroperms, strlen(zeroperms))`: nine characters and no terminator.
abbrev pub clear : Bytes → Bytes
clear out = zeroperms ++ drop 9 out

-- `if (mask & mode) out[i] = letter;`
pub mark : ℕ → ℕ → ℕ → ℕ → Bytes → Bytes
mark mode mask i letter out = if bit_and mask mode == 0 then out else set out i letter

-- `fileperm(mode, out)`: the array after it.
pub fileperm : ℕ → Bytes → Bytes
fileperm mode out =
    let out = clear out in
    let out = mark mode 0o400 0 b'r' out in
    let out = mark mode 0o200 1 b'w' out in
    let out = mark mode 0o100 2 b'x' out in
    let out = mark mode 0o040 3 b'r' out in
    let out = mark mode 0o020 4 b'w' out in
    let out = mark mode 0o010 5 b'x' out in
    let out = mark mode 0o004 6 b'r' out in
    let out = mark mode 0o002 7 b'w' out in mark mode 0o001 8 b'x' out

-- `printf("    perms:    %s\n", perms)`: undefined if no terminator stands in the array.
abbrev print_perms : Option Bytes → M (Unit {0})
print_perms none w = undefined w
print_perms (some text) w = printf "    perms:    %s\n" (text ∷ []) [] w

-- `ctime` is left out: the time is printed as a number.
pub show : Bytes → Bytes → Stat → M ℕ
show stack path sb = do
  printf "%s\n" (path ∷ []) []
  printf "    inode:    %ju\n" [] (sb.st_ino ∷ [])
  printf "    type:     %s\n" (codes (filetype sb.st_mode) ∷ []) []
  printf "    uid:      %ju\n" [] (sb.st_uid ∷ [])
  printf "    gid:      %ju\n" [] (sb.st_gid ∷ [])
  printf "    size:     %jd\n" [] (sb.st_size ∷ [])
  printf "    links:    %ju\n" [] (sb.st_nlink ∷ [])
  print_perms (c_string (fileperm sb.st_mode stack))
  printf "    modified: %s" [] (sb.st_mtime ∷ [])
  pure exit_success

abbrev described : Bytes → Bytes → Option Stat → M ℕ
described stack path none = do perror "stat"; pure exit_failure
described stack path (some sb) = show stack path sb

-- `stack` is what the array `perms` holds before `fileperm`; it has `perm_size` bytes.
pub main : Bytes → List Bytes → M ℕ
main stack (name ∷ path ∷ more) = do sb ← stat path; described stack path sb
main stack argv = do printf "Usage: %s <filepath>\n" argv []; pure exit_failure
