-- ===== src/Transport/UdpServer/Serving.antt =====
-- The loop of udp_server.c and what comes before it.
use mathlib.Core.List.{append-nil}
use operating_systems_and_ne.Base.{
  ℕ, zero, suc, ◌≤◌, ◌<◌, ◌≡◌, refl, sym, ◌∙◌, Option, none, some, List, [], ◌∷◌, length, arith,
}
use operating_systems_and_ne.Os.{
  Fd, Answer, fails, gives, Event, failed, printed, World, then_run, M,
}
use operating_systems_and_ne.Os.Process.{number_call}
use operating_systems_and_ne.Os.Datagrams.{received, sent}
use operating_systems_and_ne.Transport.EchoServer.{running}
use operating_systems_and_ne.Transport.UdpServer.{serve, signals_set, bound, has_socket}
use operating_systems_and_ne.Transport.UdpServer.Datagrams.{
  SetsErrno, Served, Served-after, quiet, quiet_one, running-Served,
}

serve-Served :
    (f n : ℕ) (sock : Fd) (more : List Answer) (e : ℕ) (l : List Event)
    → length more < f
    → length more ≤ n
    → SetsErrno more
    → Served n sock l (serve f sock (record { answers = more; errno = e; log = l }))
unfolding serve running
serve-Served zero n sock more e l less few s = absurd (omega arith)
serve-Served (suc f) n sock [] e l less few s = quiet_one sock l
serve-Served (suc f) n sock (gives zero ∷ more) e l less few s = (
  omega arith,
  refl,
  quiet sock l _ (append-nil _ ∙ append-nil _) (append-nil _ ∙ append-nil _),
  (l, refl),
)
serve-Served (suc f) n sock (gives (suc k) ∷ more) e l less few s =
    running-Served n sock (serve f sock) more e l s
      λ rest small set x log. serve-Served f n sock rest x log (omega arith) (omega arith) set
serve-Served (suc f) n sock (other ∷ more) e l less few s = quiet_one sock l

-- A call whose answer is a number, and then the rest.
number_call-Served :
    (n : ℕ) (sock : Fd) (more : List Answer) (e : ℕ) (l : List Event) (f : Option ℕ → M ℕ)
    → SetsErrno more
    → ((a : Option ℕ) (rest : List Answer) (x : ℕ) (log : List Event)
        → length rest < length more
        → SetsErrno rest
        → received sock log ≡ received sock l
        → sent sock log ≡ sent sock l
        → Served n sock l (f a (record { answers = rest; errno = x; log = log })))
    → Served n sock l (then_run (number_call (record { answers = more; errno = e; log = l })) f)
unfolding number_call
number_call-Served n sock [] e l f s go = quiet_one sock l
number_call-Served n sock (fails x ∷ more) e l f s go =
    go none more x (failed x ∷ l) (omega arith) s.1 (append-nil _) (append-nil _)
number_call-Served n sock (gives k ∷ more) e l f s go =
    go (some k) more e l (omega arith) s refl refl
number_call-Served n sock (other ∷ more) e l f s go = quiet_one sock l

-- The server from its socket on.
pub serving_lem :
    (server_port : ℕ) (sock : Fd) (w : World)
    → SetsErrno w.answers
    → Served (length w.answers) sock w.log (has_socket server_port (some sock) w)
serving_lem server_port sock w s =
    Served-after (length w.answers) sock w.log started [] _ refl refl (
      number_call-Served (length w.answers) sock w.answers w.errno started (bound sock) s
        after_bind)
  where
    started : List Event
    started = printed "Starting UDP server on %d\n" [] (server_port ∷ []) ∷ w.log

    after_signals :
        (a : Option ℕ) (rest : List Answer) (x : ℕ) (log : List Event)
        → length rest ≤ length w.answers
        → SetsErrno rest
        → Served
            (length w.answers)
            sock
            log
            (signals_set sock a (record { answers = rest; errno = x; log = log }))
    after_signals none rest x log few set =
        (refl, ([], quiet sock log _ (append-nil _) (append-nil _), omega arith))
    after_signals (some k) rest x log few set =
        Served-after (length w.answers) sock log
          (printed "Waiting for incomming packets\n" [] [] ∷ log) [] _ refl refl
          (serve-Served (suc (length rest)) (length w.answers) sock rest x _ (omega arith) few set)

    after_bind :
        (a : Option ℕ) (rest : List Answer) (x : ℕ) (log : List Event)
        → length rest < length w.answers
        → SetsErrno rest
        → received sock log ≡ received sock started
        → sent sock log ≡ sent sock started
        → Served
            (length w.answers)
            sock
            started
            (bound sock a (record { answers = rest; errno = x; log = log }))
    after_bind none rest x log few set r h =
        (refl, ([], quiet sock started _ (append-nil _ ∙ r) (append-nil _ ∙ h), omega arith))
    after_bind (some k) rest x log few set r h =
        Served-after (length w.answers) sock started log [] _ (r ∙ sym (append-nil _))
          (h ∙ sym (append-nil _))
          (number_call-Served (length w.answers) sock rest x log (signals_set sock) set
            λ a more y l less ok r' h'.
              Served-after (length w.answers) sock log l [] _ (r' ∙ sym (append-nil _))
                (h' ∙ sym (append-nil _)) (after_signals a more y l (omega arith) ok))
