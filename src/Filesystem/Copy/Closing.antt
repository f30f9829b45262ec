-- ===== src/Filesystem/Copy/Closing.antt =====
-- `main` of copy.c: what it has opened it closes, and what EXIT_SUCCESS means.
use operating_systems_and_ne.Base.{ℕ, ◌≡◌, List, [], ◌∷◌, ◌++◌}
use operating_systems_and_ne.Os.{
  exit_success, exit_failure, Bytes, Fd, Event, was_opened, was_closed, failed, complained,
  o_rdonly, o_wronly, o_creat, o_trunc, World, Outcome, returns, waits, undefined,
}
use operating_systems_and_ne.Os.Logs.{read_from, written_to}
use operating_systems_and_ne.Os.Kept.{IsQuiet, Kept}

-- The log after both files were opened.
abbrev pub opened : Bytes → Fd → List Event → List Event
opened source srcd l = was_opened source (o_rdonly ∷ []) 0 srcd ∷ l

abbrev pub both_opened : Bytes → Bytes → Fd → Fd → List Event → List Event
both_opened source destination srcd dstd l =
    was_opened destination (o_wronly ∷ o_trunc ∷ o_creat ∷ []) 0o666 dstd ∷ opened source srcd l

-- How a run of copy.c ends, from the log `l` on.
pub data Ended (source destination : Bytes) (l : List Event) : Outcome ℕ → Type 0 where
  copied :
      (srcd dstd : Fd) (new : List Event) (bs : Bytes) {w : World}
      → w.log
        ≡ was_closed dstd ∷ was_closed srcd ∷ (new ++ both_opened source destination srcd dstd l)
      → IsQuiet new
      → read_from srcd w.log ≡ read_from srcd l ++ bs
      → written_to dstd w.log ≡ written_to dstd l ++ bs
      → Ended source destination l (returns exit_success w)
  not_copied :
      (srcd dstd : Fd) (new : List Event) {w : World}
      → w.log
        ≡ was_closed dstd
          ∷ was_closed srcd
          ∷ complained "copy"
          ∷ (new ++ both_opened source destination srcd dstd l)
      → IsQuiet new
      → Ended source destination l (returns exit_failure w)
  no_source :
      (e : ℕ) {w : World}
      → w.log ≡ complained "open" ∷ failed e ∷ l
      → Ended source destination l (returns exit_failure w)
  no_destination :
      (srcd : Fd) (e : ℕ) {w : World}
      → w.log ≡ was_closed srcd ∷ complained "open" ∷ failed e ∷ opened source srcd l
      → Ended source destination l (returns exit_failure w)
  blocks : {w : World} → Ended source destination l (waits w)
  overflows : {w : World} → Ended source destination l (undefined w)
