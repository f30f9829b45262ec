-- ===== src/Filesystem/FileInfo/Listing.antt =====
-- What `main` of finfo.c prints of a file.
use operating_systems_and_ne.Base.{
  ℕ, List, zero, suc, Option-cases, inl, inr, ◌≢◌, ◌≡◌, refl, Option, none, some, [], ◌∷◌, ◌++◌,
  drop, length, get_elem?, arith, ◌==◌, if◌then◌else◌,
}
use operating_systems_and_ne.Os.{
  Bytes, Stat, Answer, describes, Event, printed, Outcome, returns, undefined, exit_success, codes,
  c_string, stat,
}
use operating_systems_and_ne.Filesystem.FileInfo.{fileperm, filetype, perm_size, show, main}
use operating_systems_and_ne.Filesystem.FileInfo.Permissions.{letter, letters, fileperm_lem}

drop-last :
    (i : ℕ) (xs : Bytes) (c : ℕ) → length xs ≡ suc i → get_elem? xs i ≡ some c → drop i xs ≡ c ∷ []
drop-last i [] c l e = absurd (omega arith)
drop-last zero (x ∷ []) c l e = cc
drop-last zero (x ∷ y ∷ xs) c l e = absurd (omega arith)
drop-last (suc i) (x ∷ xs) c l e = drop-last i xs c (omega arith) e

abbrev prepend : Bytes → Option Bytes → Option Bytes
prepend xs none = none
prepend xs (some s) = some (xs ++ s)

abbrev NoZero : Bytes → Type 0
NoZero [] = Unit
NoZero (x ∷ xs) = (x ≢ 0) × NoZero xs

c_string-append : (xs rest : Bytes) → NoZero xs → c_string (xs ++ rest) ≡ prepend xs (c_string rest)
unfolding c_string
c_string-append [] rest h = elim (Option-cases (c_string rest)) [ inl e ↦ rw e | inr (s, e) ↦ rw e ]
c_string-append (zero ∷ xs) rest h = absurd (h.0 refl)
c_string-append (suc x ∷ xs) rest h = rw (c_string-append xs rest h.1) (extend (c_string rest))
  where
    extend :
        (o : Option Bytes)
        → (elim (prepend xs o) [ none ↦ none | some s ↦ some (suc x ∷ s) ]) ≡ prepend (suc x ∷ xs) o
    extend none = refl
    extend (some s) = refl

letter-ne-zero : (mode bit c : ℕ) → c ≢ 0 → letter mode bit c ≢ 0
letter-ne-zero mode bit c ne e = ground arith

letters-NoZero : (mode : ℕ) → NoZero (letters mode)
letters-NoZero mode = search (letter-ne-zero, arith)

-- `main` prints the letters of the mode if the tenth byte of the array is 0, and meets no terminator
-- if it is not.
c_string-fileperm :
    (mode : ℕ) (stack : Bytes) (c : ℕ)
    → length stack ≡ perm_size
    → get_elem? stack 9 ≡ some c
    → c_string (fileperm mode stack) ≡ (if c == 0 then some (letters mode) else none)
c_string-fileperm mode stack c l e =
    rw
      (
        fileperm_lem mode stack,
        drop-last 9 stack c l e,
        c_string-append (letters mode) (c ∷ []) (letters-NoZero mode),
      )
      (last c)
  where
    last :
        (d : ℕ)
        → prepend (letters mode) (c_string (d ∷ []))
          ≡ (if d == 0 then some (letters mode) else none)
    last zero = unfold c_string in refl
    last (suc d) = unfold c_string in ground arith

-- What the output has before the permissions.
abbrev pub heading : Bytes → Stat → List Event → List Event
heading path sb log =
    printed "    links:    %ju\n" [] (sb.st_nlink ∷ [])
    ∷ printed "    size:     %jd\n" [] (sb.st_size ∷ [])
    ∷ printed "    gid:      %ju\n" [] (sb.st_gid ∷ [])
    ∷ printed "    uid:      %ju\n" [] (sb.st_uid ∷ [])
    ∷ printed "    type:     %s\n" (codes (filetype sb.st_mode) ∷ []) []
    ∷ printed "    inode:    %ju\n" [] (sb.st_ino ∷ [])
    ∷ printed "%s\n" (path ∷ []) []
    ∷ log

-- The whole output.
abbrev pub listing : Bytes → Stat → List Event → List Event
listing path sb log =
    printed "    modified: %s" [] (sb.st_mtime ∷ [])
    ∷ printed "    perms:    %s\n" (letters sb.st_mode ∷ []) []
    ∷ heading path sb log

-- What a run of finfo.c on a file with the status `sb` comes to, by the tenth byte of the array.
abbrev pub outcome : ℕ → Bytes → Stat → List Answer → ℕ → List Event → Outcome ℕ
outcome c path sb answers e log =
    if c == 0
    then returns exit_success (record { answers = answers; errno = e; log = listing path sb log })
    else undefined (record { answers = answers; errno = e; log = heading path sb log })

-- `main` on a file whose status `stat` gives: it prints all of its lines, with the nine letters of
-- the permission bits of the mode among them, and returns EXIT_SUCCESS, if the tenth byte of the
-- array, which the program never writes, happens to be 0; and if that byte is not 0, it has printed the
-- lines before the permissions, and then the behaviour is undefined, since no terminator stands in
-- the array.
pub perms_printed_iff :
    (stack name path : Bytes) (more : List Bytes) (sb : Stat) (c : ℕ) (answers : List Answer)
    (e : ℕ) (log : List Event)
    → length stack ≡ perm_size
    → get_elem? stack 9 ≡ some c
    → main stack
        (name ∷ path ∷ more)
        (record { answers = describes sb ∷ answers; errno = e; log = log })
      ≡ outcome c path sb answers e log
unfolding main show stat
perms_printed_iff stack name path more sb c answers e log l h =
    ground (arith, c_string-fileperm sb.st_mode stack c l h)
