-- ===== src/Transport/EchoServer/Echo.antt =====
-- `handle_client` sends back what it reads, in order.
use operating_systems_and_ne.Base.{
  ℕ, zero, suc, ◌≡◌, refl, Bool, true, false, Option, List, [], ◌∷◌, ◌++◌, length, take, drop,
  take-append-drop, take-all, sym, ap, ◌==◌, ◌∙◌,
}
use mathlib.Core.Path.{subst}
use mathlib.Core.List.{append-nil, append_assoc}
use operating_systems_and_ne.Os.{
  Bytes, Fd, Answer, gives, World, Outcome, returns, exits, becomes, waits, undefined, no_fuel,
  then_run, answered, M,
}
use operating_systems_and_ne.Os.Logs.{read_from, written_to}
use operating_systems_and_ne.Os.Calls.{
  Read, read-Read, Write, write-Write, Logged-read, Logged-written, part_read-same,
}
use operating_systems_and_ne.Filesystem.Copy.Loops.{Wrote, Wrote-more, wrote, no_read}
use operating_systems_and_ne.Transport.EchoServer.{
  buffer_size, eintr, running_answer, running, retry, while_left, after_write, write_loop, go_on,
  after_read, while_running, client_loop,
}

-- A world in which nothing more was read or written.
record Same (w w' : World) : Type 0 where
  reads : (fd : Fd) → read_from fd w'.log ≡ read_from fd w.log
  writes : (fd : Fd) → written_to fd w'.log ≡ written_to fd w.log

Wrote-Same :
    (cfd : Fd) (bs : Bytes) {w w' : World}
    → Same w w'
    → (o : Outcome Bool) → Wrote cfd bs w' o
    → Wrote cfd bs w o
Wrote-Same cfd bs s (returns true v) (h, r) =
    (h ∙ ap (λ x. x ++ bs) (s.writes cfd), λ fd. r fd ∙ s.reads fd)
Wrote-Same cfd bs s (returns false v) ((n, h), r) =
    ((n, h ∙ ap (λ x. x ++ take n bs) (s.writes cfd)), λ fd. r fd ∙ s.reads fd)
Wrote-Same cfd bs s (exits code v) h = h
Wrote-Same cfd bs s (becomes file args v) h = tt
Wrote-Same cfd bs s (waits v) h = tt
Wrote-Same cfd bs s (undefined v) h = tt
Wrote-Same cfd bs s (no_fuel v) h = tt

write_loop-Wrote :
    (f : ℕ) (cfd : Fd) (bs : Bytes) (w : World) → Wrote cfd bs w (write_loop f cfd bs w)
unfolding write_loop
write_loop-Wrote zero cfd bs w = tt
write_loop-Wrote (suc f) cfd bs w = go (write-Write cfd bs w) (write_loop-Wrote f cfd)
  where
    go :
        {o : Outcome (Option ℕ)}
        → Write cfd bs w o
        → ((r : Bytes) (v : World) → Wrote cfd r v (write_loop f cfd r v))
        → Wrote cfd bs w (then_run o (after_write (write_loop f cfd) bs))
    go Write.blocks ih = tt
    go (Write.refused e {w'} l) ih = again (w'.errno == eintr)
      where
        same : Same w w'
        same = record {
          reads = λ fd. Logged-read l fd ∙ append-nil _;
          writes = λ fd. Logged-written l fd ∙ append-nil _;
        }

        again : (b : Bool) → Wrote cfd bs w (retry (write_loop f cfd bs) b w')
        again true = Wrote-Same cfd bs same _ (ih bs w')
        again false =
            Wrote-Same cfd bs same (returns false w') ((0, sym (append-nil _)), λ fd. refl)
    go (Write.took k {w'} fits l) ih = rest (drop k bs) refl
      where
        rest : (r : Bytes) → drop k bs ≡ r → Wrote cfd bs w (while_left (write_loop f cfd) r w')
        rest [] e = (rw (wrote cfd bs k l, take-all k bs e), no_read cfd bs k l)
        rest (b ∷ r) e =
            Wrote-more cfd bs k l _
              (subst (λ z. Wrote cfd (drop k bs) w' (write_loop f cfd z w')) e (ih (drop k bs) w'))

-- After `handle_client`: on 0 all that was read from the client was sent back to it; on -1 a
-- beginning of it.
abbrev pub Echoed : Fd → World → Outcome Bool → Type 0
Echoed cfd w (returns true w') =
    (bs : Bytes) × (read_from cfd w'.log ≡ read_from cfd w.log ++ bs)
    × (written_to cfd w'.log ≡ written_to cfd w.log ++ bs)
Echoed cfd w (returns false w') =
    (bs cs : Bytes) × (read_from cfd w'.log ≡ read_from cfd w.log ++ (bs ++ cs))
    × (written_to cfd w'.log ≡ written_to cfd w.log ++ bs)
Echoed cfd w (exits code w') = ⊥
Echoed cfd w _ = Unit

-- A round that echoed `bs`, and then the rest.
Echoed-more :
    (cfd : Fd) (bs : Bytes) (w w' : World) (o : Outcome Bool)
    → read_from cfd w'.log ≡ read_from cfd w.log ++ bs
    → written_to cfd w'.log ≡ written_to cfd w.log ++ bs
    → Echoed cfd w' o
    → Echoed cfd w o
Echoed-more cfd bs w w' (returns true v) r h (cs, rs, hs) =
    (bs ++ cs, simp (rs, r, append_assoc), simp (hs, h, append_assoc))
Echoed-more cfd bs w w' (returns false v) r h (cs, ds, rs, hs) =
    (bs ++ cs, ds, simp (rs, r, append_assoc), simp (hs, h, append_assoc))
Echoed-more cfd bs w w' (exits code v) r h c = c
Echoed-more cfd bs w w' (becomes file args v) r h c = tt
Echoed-more cfd bs w w' (waits v) r h c = tt
Echoed-more cfd bs w w' (undefined v) r h c = tt
Echoed-more cfd bs w w' (no_fuel v) r h c = tt

-- One round of the loop from the `read` on.
round-Echoed :
    (cfd : Fd) (loop : M Bool) (w : World)
    → ((v : World) → Echoed cfd v (loop v))
    → Echoed cfd w (while_running loop cfd true w)
round-Echoed cfd loop w ih = go (read-Read cfd buffer_size w)
  where
    go :
        {o : Outcome (Option Bytes)}
        → Read cfd buffer_size w o
        → Echoed cfd w (then_run o (after_read loop cfd))
    go Read.blocks = tt
    go (Read.refused e {w'} l) = again (w'.errno == eintr)
      where
        again : (b : Bool) → Echoed cfd w (retry loop b w')
        again true = Echoed-more cfd [] w w' _ (Logged-read l cfd) (Logged-written l cfd) (ih w')
        again false = ([], [], Logged-read l cfd, Logged-written l cfd)
    go (Read.got [] {w'} fits l) = (
      [],
      Logged-read l cfd ∙ ap (λ r. read_from cfd w.log ++ r) (part_read-same cfd []),
      Logged-written l cfd,
    )
    go (Read.got (b ∷ bs) {w'} fits l) =
        written _ (write_loop-Wrote (suc (length w'.answers)) cfd (b ∷ bs) w')
      where
        arrived : read_from cfd w'.log ≡ read_from cfd w.log ++ (b ∷ bs)
        arrived =
            Logged-read l cfd ∙ ap (λ r. read_from cfd w.log ++ r) (part_read-same cfd (b ∷ bs))

        unwritten : written_to cfd w'.log ≡ written_to cfd w.log
        unwritten = Logged-written l cfd ∙ append-nil _

        written :
            (o : Outcome Bool) → Wrote cfd (b ∷ bs) w' o → Echoed cfd w (then_run o (go_on loop))
        written (returns true v) (h, r) =
            Echoed-more cfd (b ∷ bs) w v _ (r cfd ∙ arrived) (h ∙ ap (λ x. x ++ (b ∷ bs)) unwritten)
              (ih v)
        written (returns false v) ((n, h), r) = (
          take n (b ∷ bs),
          drop n (b ∷ bs),
          r cfd ∙ arrived ∙ ap (λ x. read_from cfd w.log ++ x) (sym (take-append-drop n (b ∷ bs))),
          h ∙ ap (λ x. x ++ take n (b ∷ bs)) unwritten,
        )
        written (exits code v) h = h
        written (becomes file args v) h = tt
        written (waits v) h = tt
        written (undefined v) h = tt
        written (no_fuel v) h = tt

Echoed-same :
    (cfd : Fd) (w w' : World) (o : Outcome Bool) → w'.log ≡ w.log → Echoed cfd w' o → Echoed cfd w o
Echoed-same cfd w w' o e =
    Echoed-more cfd [] w w' o (ap (read_from cfd) e ∙ sym (append-nil _))
      (ap (written_to cfd) e ∙ sym (append-nil _))

pub client_loop-Echoed : (f : ℕ) (cfd : Fd) (w : World) → Echoed cfd w (client_loop f cfd w)
unfolding client_loop running
client_loop-Echoed zero cfd w = tt
client_loop-Echoed (suc f) cfd w = go w.answers (client_loop-Echoed f cfd)
  where
    go :
        (more : List Answer)
        → ((v : World) → Echoed cfd v (client_loop f cfd v))
        → Echoed cfd w
            (then_run (answered running_answer w more) (while_running (client_loop f cfd) cfd))
    go [] ih = tt
    go (gives zero ∷ more) ih = ([], [], sym (append-nil _), sym (append-nil _))
    go (gives (suc n) ∷ more) ih =
        Echoed-same cfd w (record w { answers = more }) _ refl
          (round-Echoed cfd (client_loop f cfd) (record w { answers = more }) ih)
    go (other ∷ more) ih = tt
