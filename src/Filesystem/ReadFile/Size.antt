-- ===== src/Filesystem/ReadFile/Size.antt =====
-- `readfile` on every list of answers.
use native.Mathlib.Nat.{le_refl}
use mathlib.Core.List.{append_assoc}
use operating_systems_and_ne.Base.{
  ℕ, zero, suc, ◌+◌, ◌≤◌, ◌<◌, ◌≡◌, Option, none, some, List, [], ◌∷◌, ◌++◌, length, length-append,
  arith, ◌∙◌, ap, ltb, Bool-cases, inl, inr,
}
use operating_systems_and_ne.Os.{
  int_max, Bytes, Fd, Event, was_read, failed, World, Outcome, returns, exits, waits, undefined,
  no_fuel, becomes, then_run, add_int,
}
use operating_systems_and_ne.Os.Logs.{read_from}
use operating_systems_and_ne.Os.Calls.{Read, read-Read, Logged-read, part_read-same}
use operating_systems_and_ne.Os.Fuel.{Fueled, Fueled-bind, Fueled-read, add_int-Fueled}
use operating_systems_and_ne.Filesystem.ReadFile.{buff_size, after_read, readfile_loop, readfile}

-- After the loop from `total`: a number adds the length of all that was read, fits an `int`, and
-- the last read met the end of the file. `none` comes from a read that failed, and an undefined
-- sum from more bytes than an `int` can count.
abbrev pub Counted : Fd → ℕ → World → Outcome (Option ℕ) → Type 0
Counted fd total w (returns (some n) w') =
    (bs : Bytes) × (read_from fd w'.log ≡ read_from fd w.log ++ bs)
    × (n ≡ total + length bs)
    × (n ≤ int_max)
    × ((l : List Event) × (w'.log ≡ was_read fd [] ∷ l))
Counted fd total w (returns none w') = (e : ℕ) × (l : List Event) × (w'.log ≡ failed e ∷ l)
Counted fd total w (undefined w') =
    (bs : Bytes) × (read_from fd w'.log ≡ read_from fd w.log ++ bs) × (int_max < total + length bs)
Counted fd total w (exits code w') = ⊥
Counted fd total w _ = Unit

Counted-more :
    (fd : Fd) (total : ℕ) (bs : Bytes) (w w' : World) (o : Outcome (Option ℕ))
    → read_from fd w'.log ≡ read_from fd w.log ++ bs
    → Counted fd (total + length bs) w' o
    → Counted fd total w o
Counted-more fd total bs w w' (returns (some n) v) r (cs, rs, e, m, last) =
    (bs ++ cs, simp (rs, r, append_assoc), omega (arith, e, length-append {0} bs cs), m, last)
Counted-more fd total bs w w' (returns none v) r h = h
Counted-more fd total bs w w' (exits code v) r h = h
Counted-more fd total bs w w' (waits v) r h = tt
Counted-more fd total bs w w' (undefined v) r (cs, rs, m) =
    (bs ++ cs, simp (rs, r, append_assoc), omega (arith, m, length-append {0} bs cs))
Counted-more fd total bs w w' (becomes file args v) r h = tt
Counted-more fd total bs w w' (no_fuel v) r h = tt

readfile_loop-Counted :
    (f : ℕ) (fd : Fd) (total : ℕ) (w : World)
    → total ≤ int_max
    → Counted fd total w (readfile_loop f fd total w)
unfolding readfile_loop add_int
readfile_loop-Counted zero fd total w l = tt
readfile_loop-Counted (suc f) fd total w small =
    go (read-Read fd buff_size w) (readfile_loop-Counted f fd)
  where
    go :
        {o : Outcome (Option Bytes)}
        → Read fd buff_size w o
        → ((c : ℕ) (v : World) → c ≤ int_max → Counted fd c v (readfile_loop f fd c v))
        → Counted fd total w (then_run o (after_read (readfile_loop f fd) total))
    go Read.blocks ih = tt
    go (Read.refused e {w'} l) ih = (e, w.log, l.events)
    go (Read.got [] {w'} fits l) ih = (
      [],
      Logged-read l fd ∙ ap (λ r. read_from fd w.log ++ r) (part_read-same fd []),
      omega arith,
      small,
      (w.log, l.events),
    )
    go (Read.got (b ∷ bs) {w'} fits l) ih =
        elim (Bool-cases (ltb int_max (total + length (b ∷ bs)))) [
          | inl e ↦ rw (e, add_int) (b ∷ bs, arrived, ground arith)
          | inr e ↦
              rw (e, add_int)
                (Counted-more fd total (b ∷ bs) w w' _ arrived
                  (ih (total + length (b ∷ bs)) w' (ground arith)))
        ]
      where
        arrived : read_from fd w'.log ≡ read_from fd w.log ++ (b ∷ bs)
        arrived = Logged-read l fd ∙ ap (λ r. read_from fd w.log ++ r) (part_read-same fd (b ∷ bs))

readfile_loop-Fueled :
    (f n : ℕ) (fd : Fd) (total : ℕ) (w : World)
    → length w.answers < f
    → length w.answers ≤ n
    → Fueled n (readfile_loop f fd total w)
unfolding readfile_loop
readfile_loop-Fueled zero n fd total w l m = absurd (omega arith)
readfile_loop-Fueled (suc f) n fd total w l m =
    Fueled-read fd buff_size n w (after_read (readfile_loop f fd) total) m λ a v less.
      after a v less (λ t u small. readfile_loop-Fueled f n fd t u (omega arith) (omega arith))
  where
    after :
        (a : Option Bytes) (v : World)
        → length v.answers < length w.answers
        → ((t : ℕ) (u : World)
            → length u.answers < length w.answers
            → Fueled n (readfile_loop f fd t u))
        → Fueled n (after_read (readfile_loop f fd) total a v)
    after none v less ih = omega arith
    after (some []) v less ih = omega arith
    after (some (b ∷ bs)) v less ih =
        Fueled-bind (length v.answers) n _ _
          (add_int-Fueled total (length (b ∷ bs)) (length v.answers) v (le_refl _))
          λ t u small. ih t u (omega arith)

-- `readfile(fd)`, whatever the kernel answers. If it returns a number, that is how many bytes it
-- read from `fd`, and its last read met the end of the file. If it returns -1, its last call was
-- one that failed. Its sum is undefined only after more bytes than an `int` can count. It never
-- exits, and its loop never runs out of fuel.
pub readfile_lem :
    (fd : Fd) (w : World)
    → Counted fd 0 w (readfile fd w) × Fueled (length w.answers) (readfile fd w)
unfolding readfile
readfile_lem fd w = (
  readfile_loop-Counted (suc (length w.answers)) fd 0 w (omega arith),
  readfile_loop-Fueled (suc (length w.answers)) (length w.answers) fd 0 w (le_refl _) (le_refl _),
)
