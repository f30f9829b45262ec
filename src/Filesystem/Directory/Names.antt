-- ===== src/Filesystem/Directory/Names.antt =====
-- ls.c prints every name that it reads, in order.
use native.Mathlib.Nat.{le_refl}
use operating_systems_and_ne.Base.{ℕ, zero, suc, ◌<◌, ◌≡◌, refl, some, List, [], ◌∷◌, length, arith}
use operating_systems_and_ne.Os.{
  exit_success, Bytes, Fd, Answer, gives, brings, Event, printed, was_closed, returns,
}
use operating_systems_and_ne.Filesystem.Directory.{readdir, list_loop, dir_opened}

abbrev pub entries : List Bytes → List Answer → List Answer
entries [] rest = gives 0 ∷ rest
entries (name ∷ names) rest = brings name ∷ entries names rest

-- The log after the names were printed.
abbrev pub shown : List Bytes → List Event → List Event
shown [] l = l
shown (name ∷ names) l = shown names (printed "%s\n" (name ∷ []) [] ∷ l)

list_loop-shown :
    (names : List Bytes) (f : ℕ) (dirp : Fd) (rest : List Answer) (e : ℕ) (l : List Event)
    → length (entries names rest) < f
    → list_loop f dirp (record { answers = entries names rest; errno = e; log = l })
      ≡ returns exit_success
          (record { answers = rest; errno = e; log = was_closed dirp ∷ shown names l })
unfolding list_loop readdir
list_loop-shown names zero dirp rest e l less = absurd (omega arith)
list_loop-shown [] (suc f) dirp rest e l less = refl
list_loop-shown (name ∷ names) (suc f) dirp rest e l less =
    list_loop-shown names f dirp rest e (printed "%s\n" (name ∷ []) [] ∷ l) (omega arith)

-- ls.c, once the directory is opened: where the kernel gives the names of a list and then NULL, it prints
-- these names in order, closes the directory once and returns EXIT_SUCCESS.
pub ls_lem :
    (names : List Bytes) (dirp : Fd) (rest : List Answer) (e : ℕ) (l : List Event)
    → dir_opened (some dirp) (record { answers = entries names rest; errno = e; log = l })
      ≡ returns exit_success
          (record { answers = rest; errno = e; log = was_closed dirp ∷ shown names l })
ls_lem names dirp rest e l =
    list_loop-shown names (suc (length (entries names rest))) dirp rest e l (le_refl _)
