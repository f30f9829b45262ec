-- ===== src/Transport/Client/Sending.antt =====
-- The clients send their whole message.
use operating_systems_and_ne.Base.{
  ℕ, zero, suc, ◌+◌, ◌≡◌, refl, Option, List, [], ◌∷◌, ◌++◌, length, take, drop, take-append-drop,
  take-add, sym, ap, ◌∙◌,
}
use mathlib.Core.List.{append-nil, append_assoc}
use operating_systems_and_ne.Os.{
  Bytes, Fd, Answer, fails, gives, World, Outcome, returns, exits, becomes, waits, undefined,
  no_fuel, then_run, exit_failure, was_shut, printed, note, M, answered,
}
use operating_systems_and_ne.Os.Logs.{written_to}
use operating_systems_and_ne.Os.Calls.{
  Read, read-Read, Write, write-Write, Logged-written, part_written-same,
}
use operating_systems_and_ne.Os.Process.{shutdown, done_answer}
use operating_systems_and_ne.Transport.Client.{
  after_write, send_loop, after_read, receive_loop, receive, after_shutdown, until_zero,
}

-- On a return `bs` was written to `fd`, on an exit, which is with EXIT_FAILURE, a beginning of it.
abbrev pub Sent : {A : Type 0} → Fd → Bytes → World → Outcome A → Type 0
Sent fd bs w (returns a w') = written_to fd w'.log ≡ written_to fd w.log ++ bs
Sent fd bs w (exits code w') =
    (code ≡ exit_failure) × ((n : ℕ) × (written_to fd w'.log ≡ written_to fd w.log ++ take n bs))
Sent fd bs w _ = Unit

take-nothing : (n : ℕ) → take {A = ℕ} n [] ≡ []
take-nothing zero = refl
take-nothing (suc n) = refl

take-length : (bs : Bytes) → take (length bs) bs ≡ bs
take-length [] = refl
take-length (b ∷ bs) = ap (λ r. b ∷ r) (take-length bs)

-- A write of the first `k` bytes, and then the rest.
Sent-more :
    {A : Type 0} (fd : Fd) (bs : Bytes) (k : ℕ) (w w' : World) (o : Outcome A)
    → written_to fd w'.log ≡ written_to fd w.log ++ take k bs
    → Sent fd (drop k bs) w' o
    → Sent fd bs w o
Sent-more fd bs k w w' (returns a v) e h = simp (h, e, append_assoc, take-append-drop)
Sent-more fd bs k w w' (exits code v) e (c, (n, h)) =
    (c, (k + n, simp (h, e, append_assoc, take-add)))
Sent-more fd bs k w w' (becomes file args v) e h = tt
Sent-more fd bs k w w' (waits v) e h = tt
Sent-more fd bs k w w' (undefined v) e h = tt
Sent-more fd bs k w w' (no_fuel v) e h = tt

pub send_loop-Sent : (f : ℕ) (fd : Fd) (bs : Bytes) (w : World) → Sent fd bs w (send_loop f fd bs w)
unfolding send_loop
send_loop-Sent zero fd bs w = tt
send_loop-Sent (suc f) fd [] w = sym (append-nil _)
send_loop-Sent (suc f) fd (b ∷ bs) w = go (write-Write fd (b ∷ bs) w) (send_loop-Sent f fd)
  where
    go :
        {o : Outcome (Option ℕ)}
        → Write fd (b ∷ bs) w o
        → ((r : Bytes) (v : World) → Sent fd r v (send_loop f fd r v))
        → Sent fd (b ∷ bs) w (then_run o (after_write (send_loop f fd) (b ∷ bs)))
    go Write.blocks ih = tt
    go (Write.refused e l) ih = (refl, (0, append-nil _ ∙ Logged-written l fd))
    go (Write.took k {w'} fits l) ih =
        Sent-more fd (b ∷ bs) k w w' _
          (Logged-written l fd
            ∙ ap (λ r. written_to fd w.log ++ r) (part_written-same fd (take k (b ∷ bs))))
          (ih (drop k (b ∷ bs)) w')

-- After the message nothing more is written.
pub then_run-Sent :
    {A B : Type 0} (fd : Fd) (bs : Bytes) (w : World) (o : Outcome A) (f : A → M B)
    → Sent fd bs w o
    → ((a : A) (v : World) → Sent fd [] v (f a v))
    → Sent fd bs w (then_run o f)
then_run-Sent {B = B} fd bs w (returns a v) f h rest = go (f a v) (rest a v)
  where
    go : (o : Outcome B) → Sent fd [] v o → Sent fd bs w o
    go (returns b u) k = k ∙ append-nil _ ∙ h
    go (exits code u) (c, (n, k)) =
        (c, (length bs, simp (k, take-nothing, append-nil, h, take-length)))
    go (becomes file args u) k = tt
    go (waits u) k = tt
    go (undefined u) k = tt
    go (no_fuel u) k = tt
then_run-Sent fd bs w (exits code v) f h rest = h
then_run-Sent fd bs w (becomes file args v) f h rest = tt
then_run-Sent fd bs w (waits v) f h rest = tt
then_run-Sent fd bs w (undefined v) f h rest = tt
then_run-Sent fd bs w (no_fuel v) f h rest = tt

-- A world with the same bytes written.
pub Sent-from :
    {A : Type 0} (fd : Fd) (bs : Bytes) (w w' : World) (o : Outcome A)
    → written_to fd w'.log ≡ written_to fd w.log
    → Sent fd bs w' o
    → Sent fd bs w o
Sent-from fd bs w w' o e = Sent-more fd bs 0 w w' o (e ∙ sym (append-nil _))

receive_loop-Sent : (f : ℕ) (fd : Fd) (w : World) → Sent fd [] w (receive_loop f fd w)
unfolding receive_loop
receive_loop-Sent zero fd w = tt
receive_loop-Sent (suc f) fd w = go (read-Read fd 4095 w) (receive_loop-Sent f fd)
  where
    go :
        {o : Outcome (Option Bytes)}
        → Read fd 4095 w o
        → ((v : World) → Sent fd [] v (receive_loop f fd v))
        → Sent fd [] w (then_run o (after_read (receive_loop f fd)))
    go Read.blocks ih = tt
    go (Read.refused e l) ih = (refl, (0, append-nil _ ∙ Logged-written l fd))
    go (Read.got [] fits l) ih = Logged-written l fd
    go (Read.got (b ∷ bs) {w'} fits l) ih =
        Sent-from fd [] w (note (printed "%s" (until_zero (b ∷ bs) ∷ []) []) w') _
          (append-nil _ ∙ Logged-written l fd ∙ append-nil _)
          (ih (note (printed "%s" (until_zero (b ∷ bs) ∷ []) []) w'))

pub receive-Sent : (fd : Fd) (w : World) → Sent fd [] w (receive fd w)
receive-Sent fd w =
    then_run-Sent fd [] w (receive_loop (suc (length w.answers)) fd w) _
      (receive_loop-Sent (suc (length w.answers)) fd w) (λ a v. refl)

pub shutdown-Sent :
    (fd : Fd) (w : World) → Sent fd [] w (then_run (shutdown fd w) (after_shutdown fd))
unfolding shutdown
shutdown-Sent fd w = go w.answers
  where
    go :
        (more : List Answer)
        → Sent fd [] w (then_run (answered (done_answer (was_shut fd)) w more) (after_shutdown fd))
    go [] = tt
    go (fails x ∷ more) = (refl, (0, append-nil _ ∙ append-nil _ ∙ sym (append-nil _)))
    go (gives k ∷ more) =
        Sent-from fd [] w (note (was_shut fd) (record w { answers = more })) _ (append-nil _)
          (receive-Sent fd (note (was_shut fd) (record w { answers = more })))
    go (other ∷ more) = tt
