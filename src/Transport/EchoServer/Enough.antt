-- ===== src/Transport/EchoServer/Enough.antt =====
-- The fuel of `handle_client` is enough, and what it does as a whole.
use native.Mathlib.Nat.{le_refl}
use operating_systems_and_ne.Base.{
  ℕ, zero, suc, ◌≤◌, ◌<◌, ◌==◌, Bool, true, false, Option, none, some, List, [], ◌∷◌, length, drop,
  arith,
}
use operating_systems_and_ne.Os.{Bytes, Fd, Answer, gives, World, then_run, answered, M}
use operating_systems_and_ne.Os.Fuel.{Fueled, Fueled-bind, Fueled-read, Fueled-write}
use operating_systems_and_ne.Transport.EchoServer.{
  buffer_size, eintr, running_answer, running, retry, while_left, after_write, write_loop, go_on,
  after_read, while_running, client_loop, handle_client,
}
use operating_systems_and_ne.Transport.EchoServer.Echo.{Echoed, client_loop-Echoed}

retry-Fueled :
    (n : ℕ) (loop : M Bool) (v : World) (b : Bool)
    → Fueled n (loop v)
    → length v.answers ≤ n
    → Fueled n (retry loop b v)
retry-Fueled n loop v true h m = h
retry-Fueled n loop v false h m = m

write_loop-Fueled :
    (f n : ℕ) (cfd : Fd) (bs : Bytes) (w : World)
    → length w.answers < f
    → length w.answers ≤ n
    → Fueled n (write_loop f cfd bs w)
unfolding write_loop
write_loop-Fueled zero n cfd bs w l m = absurd (omega arith)
write_loop-Fueled (suc f) n cfd bs w l m =
    Fueled-write cfd bs n w (after_write (write_loop f cfd) bs) m λ a v less.
      after a v (λ r. write_loop-Fueled f n cfd r v (omega arith) (omega arith)) (omega arith)
  where
    after :
        (a : Option ℕ) (v : World)
        → ((r : Bytes) → Fueled n (write_loop f cfd r v))
        → length v.answers ≤ n
        → Fueled n (after_write (write_loop f cfd) bs a v)
    after none v ih m = retry-Fueled n (write_loop f cfd bs) v (v.errno == eintr) (ih bs) m
    after (some k) v ih m = left (drop k bs)
      where
        left : (r : Bytes) → Fueled n (while_left (write_loop f cfd) r v)
        left [] = m
        left (b ∷ r) = ih (b ∷ r)

client_loop-Fueled :
    (f n : ℕ) (cfd : Fd) (w : World)
    → length w.answers < f
    → length w.answers ≤ n
    → Fueled n (client_loop f cfd w)
unfolding client_loop running
client_loop-Fueled zero n cfd w l m = absurd (omega arith)
client_loop-Fueled (suc f) n cfd w l m =
    go w.answers m (λ v less. client_loop-Fueled f n cfd v (omega arith) (omega arith))
  where
    go :
        (more : List Answer)
        → length more ≤ n
        → ((v : World) → length v.answers < length more → Fueled n (client_loop f cfd v))
        → Fueled n
            (then_run (answered running_answer w more) (while_running (client_loop f cfd) cfd))
    go [] m ih = tt
    go (gives zero ∷ more) m ih = omega arith
    go (gives (suc k) ∷ more) m ih =
        Fueled-read cfd buffer_size n (record w { answers = more })
          (after_read (client_loop f cfd) cfd) (omega arith) λ a v less. after a v (omega arith)
      where
        after :
            (a : Option Bytes) (v : World)
            → length v.answers < length more
            → Fueled n (after_read (client_loop f cfd) cfd a v)
        after none v less =
            retry-Fueled n (client_loop f cfd) v (v.errno == eintr) (ih v (omega arith))
              (omega arith)
        after (some []) v less = omega arith
        after (some (b ∷ bs)) v less =
            Fueled-bind (length v.answers) n _ _
              (write_loop-Fueled (suc (length v.answers)) (length v.answers) cfd (b ∷ bs) v
                (le_refl _) (le_refl _))
              λ done u small. round done u (omega arith)
          where
            round :
                (done : Bool) (u : World)
                → length u.answers < suc (length more)
                → Fueled n (go_on (client_loop f cfd) done u)
            round true u small = ih u (omega arith)
            round false u small = omega arith
    go (other ∷ more) m ih = tt

-- `handle_client(cfd)`, whatever the kernel answers and whenever SIGINT arrives. If it returns 0,
-- all that it read from `cfd` was written back to `cfd` in order, short writes and interrupted
-- calls included. If it returns -1, a beginning of what it read was written back. It never exits,
-- and its loops never run out of fuel.
pub handle_client_lem :
    (cfd : Fd) (w : World)
    → Echoed cfd w (handle_client cfd w) × Fueled (length w.answers) (handle_client cfd w)
unfolding handle_client
handle_client_lem cfd w = (
  client_loop-Echoed (suc (length w.answers)) cfd w,
  client_loop-Fueled (suc (length w.answers)) (length w.answers) cfd w (le_refl _) (le_refl _),
)
