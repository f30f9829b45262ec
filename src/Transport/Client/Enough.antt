-- ===== src/Transport/Client/Enough.antt =====
-- The clients as a whole: what they send, and that their fuel is enough.
use native.Mathlib.Nat.{le_refl}
use operating_systems_and_ne.Base.{
  ℕ, zero, suc, ◌≤◌, ◌<◌, ◌≡◌, refl, true, false, Option, none, some, List, [], ◌∷◌, length, drop,
  arith, leb,
}
use mathlib.Core.List.{append-nil}
use operating_systems_and_ne.Os.{
  Bytes, Fd, Answer, gives, World, exits, then_run, exit_failure, was_shut, printed, warned, note,
  answered,
}
use operating_systems_and_ne.Os.Logs.{written_to}
use operating_systems_and_ne.Os.Fuel.{Fueled, Fueled-bind, Fueled-read, Fueled-write}
use operating_systems_and_ne.Os.Process.{shutdown, done_answer}
use operating_systems_and_ne.Transport.Client.{
  after_write, send_loop, after_read, receive_loop, receive, after_shutdown, tcp_talk, http_talk,
  request_size,
}
use operating_systems_and_ne.Transport.Client.Sending.{
  Sent, send_loop-Sent, then_run-Sent, Sent-from, receive-Sent, shutdown-Sent,
}

send_loop-Fueled :
    (f n : ℕ) (fd : Fd) (bs : Bytes) (w : World)
    → length w.answers < f
    → length w.answers ≤ n
    → Fueled n (send_loop f fd bs w)
unfolding send_loop
send_loop-Fueled zero n fd bs w l m = absurd (omega arith)
send_loop-Fueled (suc f) n fd [] w l m = m
send_loop-Fueled (suc f) n fd (b ∷ bs) w l m =
    Fueled-write fd (b ∷ bs) n w (after_write (send_loop f fd) (b ∷ bs)) m
      λ a v less. after a v (λ r. send_loop-Fueled f n fd r v (omega arith) (omega arith))
  where
    after :
        (a : Option ℕ) (v : World)
        → ((r : Bytes) → Fueled n (send_loop f fd r v))
        → Fueled n (after_write (send_loop f fd) (b ∷ bs) a v)
    after none v ih = tt
    after (some k) v ih = ih (drop k (b ∷ bs))

receive_loop-Fueled :
    (f n : ℕ) (fd : Fd) (w : World)
    → length w.answers < f
    → length w.answers ≤ n
    → Fueled n (receive_loop f fd w)
unfolding receive_loop
receive_loop-Fueled zero n fd w l m = absurd (omega arith)
receive_loop-Fueled (suc f) n fd w l m =
    Fueled-read fd 4095 n w (after_read (receive_loop f fd)) m λ a v less.
      after a v less (λ u small. receive_loop-Fueled f n fd u (omega arith) (omega arith))
  where
    after :
        (a : Option Bytes) (v : World)
        → length v.answers < length w.answers
        → ((u : World) → length u.answers < length w.answers → Fueled n (receive_loop f fd u))
        → Fueled n (after_read (receive_loop f fd) a v)
    after none v less ih = tt
    after (some []) v less ih = omega arith
    after (some (b ∷ bs)) v less ih = ih _ less

receive-Fueled : (fd : Fd) (n : ℕ) (w : World) → length w.answers ≤ n → Fueled n (receive fd w)
receive-Fueled fd n w m =
    Fueled-bind n n _ _ (receive_loop-Fueled (suc (length w.answers)) n fd w (le_refl _) m)
      (λ a v small. small)

shutdown-Fueled :
    (fd : Fd) (n : ℕ) (w : World)
    → length w.answers ≤ n
    → Fueled n (then_run (shutdown fd w) (after_shutdown fd))
unfolding shutdown
shutdown-Fueled fd n w = go w.answers
  where
    go :
        (more : List Answer)
        → length more ≤ n
        → Fueled n (then_run (answered (done_answer (was_shut fd)) w more) (after_shutdown fd))
    go [] m = tt
    go (gives k ∷ more) m =
        receive-Fueled fd n (note (was_shut fd) (record w { answers = more })) (omega arith)
    go (other ∷ more) m = tt

-- `tcp_client` once it is connected, whatever the kernel answers. If it returns, exactly the
-- message was written to the socket, however short the writes were. If it exits, it is with
-- EXIT_FAILURE, and a beginning of the message was written. Its loops never run out of fuel.
pub tcp_talk_lem :
    (sock : Fd) (msg : Bytes) (w : World)
    → Sent sock msg w (tcp_talk sock msg w) × Fueled (length w.answers) (tcp_talk sock msg w)
unfolding tcp_talk
tcp_talk_lem sock msg w = (
  then_run-Sent sock msg w (send_loop (suc (length w.answers)) sock msg w) _
      (send_loop-Sent (suc (length w.answers)) sock msg w) (λ a v. shutdown-Sent sock v),
  Fueled-bind (length w.answers) (length w.answers) _ _
      (send_loop-Fueled (suc (length w.answers)) (length w.answers) sock msg w (le_refl _)
        (le_refl _))
      (λ a v m. shutdown-Fueled sock (length w.answers) v m),
)

-- `httpget` once it is connected. A request shorter than `request_size` is written to the socket: all
-- of it if `httpget` returns, a beginning of it if it exits, which is with EXIT_FAILURE; its
-- loops never run out of fuel. Of a longer one nothing is written, and `httpget` exits with
-- EXIT_FAILURE.
pub http_talk_lem :
    (sfd : Fd) (request : Bytes) (w : World)
    → (length request < request_size
        → Sent sfd request w (http_talk sfd request w)
          × Fueled (length w.answers) (http_talk sfd request w))
      × (request_size ≤ length request
          → (v : World) × (http_talk sfd request w ≡ exits exit_failure v)
            × (written_to sfd v.log ≡ written_to sfd w.log))
unfolding http_talk
http_talk_lem sfd request w = (short, long)
  where
    shown : World
    shown = note (printed "%s" (request ∷ []) []) w

    short :
        length request < request_size
        → Sent sfd request w (http_talk sfd request w)
          × Fueled (length w.answers) (http_talk sfd request w)
    short h =
        let e : leb request_size (length request) ≡ false = ground arith in
        rw e (
          Sent-from sfd request w shown _ (append-nil _) (
              then_run-Sent sfd request shown (send_loop (suc (length w.answers)) sfd request shown)
                _ (send_loop-Sent (suc (length w.answers)) sfd request shown)
                (λ a v. receive-Sent sfd v)),
          Fueled-bind (length w.answers) (length w.answers) _ _
              (send_loop-Fueled (suc (length w.answers)) (length w.answers) sfd request shown
                (le_refl _) (le_refl _))
              (λ a v m. receive-Fueled sfd (length w.answers) v m),
        )

    long :
        request_size ≤ length request
        → (v : World) × (http_talk sfd request w ≡ exits exit_failure v)
          × (written_to sfd v.log ≡ written_to sfd w.log)
    long h =
        let e : leb request_size (length request) ≡ true = ground arith in
        (note (warned "To long request header\n" [] []) w, rw e refl, append-nil _)
