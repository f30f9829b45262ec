-- ===== src/Os/Calls.antt =====
-- The outcomes of the calls, as families that a proof about a program matches on.
use Prim.Native.Nat.{min}
use operating_systems_and_ne.Base.{
  ℕ, suc, ◌≤◌, ◌≡◌, refl, Option, none, some, List, [], ◌∷◌, ◌++◌, length, take, length-take, arith,
}
use operating_systems_and_ne.Os.Logs.{read_from, written_to, part_read, part_written}
use operating_systems_and_ne.Os.{
  Bytes, Fd, Event, failed, was_read, was_written, Answer, fails, gives, brings, World, Outcome,
  returns, waits, read, write, read_answer, write_answer, answered,
}

-- The world after a call: it used one answer and logged one event.
pub record Logged (e : Event) (w w' : World) : Type 0 where
  pub events : w'.log ≡ e ∷ w.log
  pub used : suc (length w'.answers) ≡ length w.answers

-- What one more event does to a log.
module _ {e : Event} {w w' : World} (l : Logged e w w') (fd : Fd) where
  pub Logged-read : read_from fd w'.log ≡ read_from fd w.log ++ part_read fd e
  Logged-read = rw l.events

  pub Logged-written : written_to fd w'.log ≡ written_to fd w.log ++ part_written fd e
  Logged-written = rw l.events

pub part_read-same : (fd : Fd) (bs : Bytes) → part_read fd (was_read fd bs) ≡ bs
part_read-same fd bs = ground arith

pub part_written-same : (fd : Fd) (bs : Bytes) → part_written fd (was_written fd bs) ≡ bs
part_written-same fd bs = ground arith

pub data Read (fd : Fd) (n : ℕ) (w : World) : Outcome (Option Bytes) → Type 0 where
  blocks : {w' : World} → Read fd n w (waits w')
  refused : (e : ℕ) {w' : World} → Logged (failed e) w w' → Read fd n w (returns none w')
  got :
      (bs : Bytes) {w' : World}
      → length bs ≤ n
      → Logged (was_read fd bs) w w'
      → Read fd n w (returns (some bs) w')

pub read-Read : (fd : Fd) (n : ℕ) (w : World) → Read fd n w (read fd n w)
unfolding read
read-Read fd n w = go w.answers refl
  where
    go : (l : List Answer) → w.answers ≡ l → Read fd n w (answered (read_answer fd n) w l)
    go [] e = Read.blocks
    go (fails x ∷ l) e = Read.refused x (record { events = refl; used = ground arith })
    go (brings bs ∷ l) e =
        Read.got (take n bs) (omega (arith, length-take n bs))
          (record { events = refl; used = ground arith })
    go (a ∷ l) e = Read.blocks

pub data Write (fd : Fd) (bs : Bytes) (w : World) : Outcome (Option ℕ) → Type 0 where
  blocks : {w' : World} → Write fd bs w (waits w')
  refused : (e : ℕ) {w' : World} → Logged (failed e) w w' → Write fd bs w (returns none w')
  took :
      (k : ℕ) {w' : World}
      → k ≤ length bs
      → Logged (was_written fd (take k bs)) w w'
      → Write fd bs w (returns (some k) w')

pub write-Write : (fd : Fd) (bs : Bytes) (w : World) → Write fd bs w (write fd bs w)
unfolding write
write-Write fd bs w = go w.answers refl
  where
    go : (l : List Answer) → w.answers ≡ l → Write fd bs w (answered (write_answer fd bs) w l)
    go [] e = Write.blocks
    go (fails x ∷ l) e = Write.refused x (record { events = refl; used = ground arith })
    go (gives k ∷ l) e =
        Write.took (min k (length bs)) (omega arith) (record { events = refl; used = ground arith })
    go (a ∷ l) e = Write.blocks
