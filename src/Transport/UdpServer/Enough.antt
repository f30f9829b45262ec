-- ===== src/Transport/UdpServer/Enough.antt =====
-- udp_server.c does come to an end at SIGINT: what it does as a whole.
use native.Mathlib.Nat.{le_refl}
use operating_systems_and_ne.Base.{
  ℕ, zero, suc, ◌<◌, ◌≡◌, refl, ◌∙◌, some, List, [], ◌∷◌, length, take, length-take, arith,
}
use operating_systems_and_ne.Os.{
  Fd, Answer, gives, delivers, Event, was_received, was_sent, World, returns, exit_success,
}
use operating_systems_and_ne.Os.Process.{number_call}
use operating_systems_and_ne.Os.Datagrams.{Datagram, recvfrom, sendto}
use operating_systems_and_ne.Transport.EchoServer.{running}
use operating_systems_and_ne.Transport.UdpServer.{serve, has_socket}
use operating_systems_and_ne.Transport.UdpServer.Datagrams.{
  SetsErrno, Served, receipt, after_recv-sendto,
}
use operating_systems_and_ne.Transport.UdpServer.Serving.{serving_lem}

-- The kernel delivers the datagrams, sends what is sent back, and then SIGINT arrives.
abbrev pub rounds : List Datagram → List Answer
rounds [] = gives 0 ∷ []
rounds ((bs, address) ∷ ds) = gives 1 ∷ delivers bs address ∷ gives (length bs) ∷ rounds ds

serve-returns :
    (ds : List Datagram) (f : ℕ) (sock : Fd) (e : ℕ) (l : List Event)
    → length (rounds ds) < f
    → (v : World) × (serve f sock (record { answers = rounds ds; errno = e; log = l })
        ≡ returns 0 v)
unfolding serve running recvfrom sendto
serve-returns ds zero sock e l less = absurd (omega arith)
serve-returns [] (suc f) sock e l less = (_, refl)
serve-returns ((bs, address) ∷ ds) (suc f) sock e l less =
    let came : World = record {
      answers = gives (length bs) ∷ rounds ds;
      errno = e;
      log = was_received sock (take 4095 bs) address ∷ l;
    } in
    let (text, same) =
      after_recv-sendto (serve f sock) sock (take 4095 bs) address came
        (omega (arith, length-take 4095 bs)) in
    let (v, h) =
      serve-returns ds f sock e
        (was_sent sock (take 4095 bs) address ∷ receipt text address ∷ came.log) (omega arith) in
    (v, same ∙ h)

-- udp_server.c from its socket on, whatever the kernel answers and whenever SIGINT arrives, if a call
-- that fails sets `errno`. Each datagram, cut to the buffer, is sent back to where it came from, in
-- order: when the server waits or exits, all but at most the last one, and when it returns, all. If it
-- returns, it is 0, and the last it did was to print that it finishes and to close the socket; if it
-- exits, it is with EXIT_FAILURE. No byte is written outside of the buffer, and the loop never runs
-- out of fuel. And it does return, if no call fails, after any number of datagrams and then SIGINT.
pub udp_server_lem :
    (server_port : ℕ) (sock : Fd) (w : World)
    → SetsErrno w.answers
    → Served (length w.answers) sock w.log (has_socket server_port (some sock) w)
      × ((ds : List Datagram)
          → (v : World) × (has_socket server_port
                (some sock)
                (record w { answers = gives 0 ∷ gives 0 ∷ rounds ds })
              ≡ returns exit_success v))
unfolding number_call
udp_server_lem server_port sock w s = (
  serving_lem server_port sock w s,
  λ ds. serve-returns ds (suc (length (rounds ds))) sock w.errno _ (le_refl _),
)
