-- ===== src/Filesystem/Crc/File.antt =====
-- `filecrc8` on every list of answers.
use native.Mathlib.Nat.{le_refl}
use operating_systems_and_ne.Base.{
  ℕ, zero, suc, ◌%◌, ◌^◌, ◌≤◌, ◌<◌, ◌≡◌, refl, Option, none, some, List, [], ◌∷◌, ◌++◌, length,
  arith, ◌∙◌, ap, sym,
}
use mathlib.Core.List.{append_assoc}
use operating_systems_and_ne.Os.{
  Bytes, Fd, Event, was_read, World, Outcome, returns, exits, waits, undefined, no_fuel, becomes,
  then_run,
}
use operating_systems_and_ne.Os.Logs.{read_from}
use operating_systems_and_ne.Os.Calls.{Read, read-Read, Logged-read, part_read-same}
use operating_systems_and_ne.Os.Fuel.{Fueled, Fueled-read}
use operating_systems_and_ne.Filesystem.Crc.{buff_size, crc8, after_read, filecrc8_loop, filecrc8}
use operating_systems_and_ne.Filesystem.Crc.Detection.{crc8-append, IsByte, crc8-lt}

-- After the loop from the sum `crc`: a number is the sum of all that was read, and the last read
-- met the end of the file. `none` comes from a read that failed.
abbrev pub Summed : Fd → ℕ → World → Outcome (Option ℕ) → Type 0
Summed fd crc w (returns (some n) w') =
    (bs : Bytes) × (read_from fd w'.log ≡ read_from fd w.log ++ bs)
    × (n ≡ crc8 bs crc)
    × ((l : List Event) × (w'.log ≡ was_read fd [] ∷ l))
Summed fd crc w (returns none w') = (e : ℕ) × (l : List Event) × (w'.log ≡ Event.failed e ∷ l)
Summed fd crc w (exits code w') = ⊥
Summed fd crc w _ = Unit

Summed-more :
    (fd : Fd) (crc : ℕ) (bs : Bytes) (w w' : World) (o : Outcome (Option ℕ))
    → read_from fd w'.log ≡ read_from fd w.log ++ bs
    → Summed fd (crc8 bs crc) w' o
    → Summed fd crc w o
Summed-more fd crc bs w w' (returns (some n) v) r (cs, rs, e, last) =
    (bs ++ cs, simp (rs, r, append_assoc), e ∙ sym (crc8-append bs cs crc), last)
Summed-more fd crc bs w w' (returns none v) r h = h
Summed-more fd crc bs w w' (exits code v) r h = h
Summed-more fd crc bs w w' (waits v) r h = tt
Summed-more fd crc bs w w' (undefined v) r h = tt
Summed-more fd crc bs w w' (becomes file args v) r h = tt
Summed-more fd crc bs w w' (no_fuel v) r h = tt

filecrc8_loop-Summed :
    (f : ℕ) (fd : Fd) (crc : ℕ) (w : World)
    → IsByte crc
    → Summed fd crc w (filecrc8_loop f fd crc w)
unfolding filecrc8_loop
filecrc8_loop-Summed zero fd crc w l = tt
filecrc8_loop-Summed (suc f) fd crc w byte =
    go (read-Read fd buff_size w) (filecrc8_loop-Summed f fd)
  where
    go :
        {o : Outcome (Option Bytes)}
        → Read fd buff_size w o
        → ((c : ℕ) (v : World) → IsByte c → Summed fd c v (filecrc8_loop f fd c v))
        → Summed fd crc w (then_run o (after_read (filecrc8_loop f fd) crc))
    go Read.blocks ih = tt
    go (Read.refused e {w'} l) ih = (e, w.log, l.events)
    go (Read.got [] {w'} fits l) ih = (
      [],
      Logged-read l fd ∙ ap (λ r. read_from fd w.log ++ r) (part_read-same fd []),
      unfold crc8 in refl,
      (w.log, l.events),
    )
    go (Read.got (b ∷ bs) {w'} fits l) ih =
        let same : crc % 2 ^ 8 ≡ crc = omega arith in
        Summed-more fd crc (b ∷ bs) w w' _
          (Logged-read l fd ∙ ap (λ r. read_from fd w.log ++ r) (part_read-same fd (b ∷ bs)))
          (rw same (ih (crc8 (b ∷ bs) crc) w' (crc8-lt (b ∷ bs) crc byte)))

filecrc8_loop-Fueled :
    (f n : ℕ) (fd : Fd) (crc : ℕ) (w : World)
    → length w.answers < f
    → length w.answers ≤ n
    → Fueled n (filecrc8_loop f fd crc w)
unfolding filecrc8_loop
filecrc8_loop-Fueled zero n fd crc w l m = absurd (omega arith)
filecrc8_loop-Fueled (suc f) n fd crc w l m =
    Fueled-read fd buff_size n w (after_read (filecrc8_loop f fd) crc) m
      λ a v less. after a v less (λ c. filecrc8_loop-Fueled f n fd c v (omega arith) (omega arith))
  where
    after :
        (a : Option Bytes) (v : World)
        → length v.answers < length w.answers
        → ((c : ℕ) → Fueled n (filecrc8_loop f fd c v))
        → Fueled n (after_read (filecrc8_loop f fd) crc a v)
    after none v less ih = omega arith
    after (some []) v less ih = omega arith
    after (some (b ∷ bs)) v less ih = ih (crc8 (b ∷ bs) (crc % 2 ^ 8))

-- `filecrc8(fd)`, whatever the kernel answers. If it returns a number, that is the CRC-8 of all
-- that it read from `fd`, started at 0xFF, however the reads cut the file, and its last read met
-- the end of the file. If it returns -1, its last call was one that failed. It never exits, and
-- its loop never runs out of fuel.
pub filecrc8_lem :
    (fd : Fd) (w : World)
    → Summed fd 0xff w (filecrc8 fd w) × Fueled (length w.answers) (filecrc8 fd w)
unfolding filecrc8
filecrc8_lem fd w = (
  filecrc8_loop-Summed (suc (length w.answers)) fd 0xff w (omega arith),
  filecrc8_loop-Fueled (suc (length w.answers)) (length w.answers) fd 0xff w (le_refl _)
      (le_refl _),
)
