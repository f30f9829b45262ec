-- ===== src/Filesystem/Tests.antt =====
-- Runs of the file programs against given answers, and the theorems at these runs.
use operating_systems_and_ne.Base.{
  List, ℕ, suc, ◌%◌, ◌≡◌, ◌≢◌, refl, sym, ◌∙◌, [], ◌∷◌, length, arith, if◌then◌else◌,
}
use operating_systems_and_ne.Os.{
  Answer, Bytes, Status, Stat, describes, World, gives, brings, reports, returns, codes,
  exit_success, exit_failure,
}
use operating_systems_and_ne.Os.Fuel.{Fueled}
use operating_systems_and_ne.Filesystem.Copy
use operating_systems_and_ne.Filesystem.Copy.Loops.{Copied}
use operating_systems_and_ne.Filesystem.Copy.Correct.{copy_lem}
use operating_systems_and_ne.Filesystem.Crc.{crc8, filecrc8}
use operating_systems_and_ne.Filesystem.Crc.Detection.{one_byte_detected}
use operating_systems_and_ne.Filesystem.Crc.File.{Summed, filecrc8_lem}
use operating_systems_and_ne.Filesystem.ReadFile.{readfile}
use operating_systems_and_ne.Filesystem.ReadFile.Size.{Counted, readfile_lem}
use operating_systems_and_ne.Filesystem.Redirect
use operating_systems_and_ne.Filesystem.Redirect.Listing.{Listed, is_fine, dup2_main_lem}
use operating_systems_and_ne.Filesystem.FileInfo
use operating_systems_and_ne.Filesystem.FileInfo.{fileperm}
use operating_systems_and_ne.Filesystem.FileInfo.Permissions.{fileperm_lem, fileperm_tells}
use operating_systems_and_ne.Filesystem.FileInfo.Listing.{outcome, perms_printed_iff}

-- A file of five bytes, read in two pieces; the first write takes two bytes of three.
abbrev two_pieces : World
two_pieces = record {
  answers =
      brings (1 ∷ 2 ∷ 3 ∷ []) ∷ gives 2 ∷ gives 1 ∷ brings (4 ∷ 5 ∷ []) ∷ gives 2 ∷ brings [] ∷ [];
  errno = 0;
  log = [];
}

copy_lem_example :
    Copied 3 4 0 two_pieces (Copy.copy 3 4 two_pieces)
    × Fueled (length two_pieces.answers) (Copy.copy 3 4 two_pieces)
copy_lem_example = copy_lem 3 4 two_pieces

abbrev read_only : World
read_only = record {
  answers =
      brings (b'1' ∷ b'2' ∷ b'3' ∷ b'4' ∷ [])
      ∷ brings (b'5' ∷ b'6' ∷ b'7' ∷ b'8' ∷ b'9' ∷ [])
      ∷ brings []
      ∷ [];
  errno = 0;
  log = [];
}

filecrc8_lem_example :
    Summed 3 0xff read_only (filecrc8 3 read_only)
    × Fueled (length read_only.answers) (filecrc8 3 read_only)
filecrc8_lem_example = filecrc8_lem 3 read_only

readfile_lem_example :
    Counted 3 0 read_only (readfile 3 read_only)
    × Fueled (length read_only.answers) (readfile 3 read_only)
readfile_lem_example = readfile_lem 3 read_only

one_byte_detected_example : crc8 (1 ∷ 2 ∷ 3 ∷ []) 0xff ≢ crc8 (1 ∷ 7 ∷ 3 ∷ []) 0xff
one_byte_detected_example =
    one_byte_detected (1 ∷ []) (3 ∷ []) 2 7 0xff (omega arith) (omega arith) (omega arith)
      (omega arith) (omega arith)

abbrev stack_bytes : Bytes
stack_bytes = 7 ∷ 7 ∷ 7 ∷ 7 ∷ 7 ∷ 7 ∷ 7 ∷ 7 ∷ 7 ∷ 7 ∷ []

fileperm_tells_example : 0o100644 % 512 ≡ 0o040644 % 512
fileperm_tells_example =
    fileperm_tells 0o100644 0o040644 stack_bytes
      (fileperm_lem 0o100644 stack_bytes ∙ sym (fileperm_lem 0o040644 stack_bytes))

abbrev small_file : Stat
small_file = record {
  st_ino = 12;
  st_mode = 0o100644;
  st_uid = 1000;
  st_gid = 100;
  st_size = 5;
  st_nlink = 1;
  st_mtime = 0;
}

perms_printed_iff_example :
    FileInfo.main stack_bytes
      (codes "finfo" ∷ codes "a" ∷ [])
      (record { answers = describes small_file ∷ []; errno = 0; log = [] })
    ≡ outcome 7 (codes "a") small_file [] 0 []
perms_printed_iff_example =
    perms_printed_iff stack_bytes (codes "finfo") (codes "a") [] small_file 7 [] 0 [] refl refl

dup2_main_lem_example :
    Listed (codes "out.txt") [] (
      Redirect.main
        (codes "dup2" ∷ codes "out.txt" ∷ [])
        (record { answers = gives 3 ∷ gives 0 ∷ gives 1 ∷ gives 0 ∷ []; errno = 0; log = [] }))
    × ((fd p q : ℕ) (status : Status)
        → (w : World) × (Redirect.main (codes "dup2" ∷ codes "out.txt" ∷ []) (record {
          answers =
              gives fd
              ∷ gives (suc p)
              ∷ reports q status
              ∷ gives 3
              ∷ gives 0
              ∷ gives 1
              ∷ gives 0
              ∷ [];
          errno = 0;
          log = [];
        })
            ≡ returns (if is_fine status then exit_success else exit_failure) w))
dup2_main_lem_example =
    dup2_main_lem (codes "dup2") (codes "out.txt") [] (gives 3 ∷ gives 0 ∷ gives 1 ∷ gives 0 ∷ []) 0
      []

-- The destination takes one byte at a time.
abbrev two_writes : List Answer
two_writes = gives 3 ∷ gives 4 ∷ brings (1 ∷ 2 ∷ []) ∷ gives 1 ∷ gives 1 ∷ brings [] ∷ []
