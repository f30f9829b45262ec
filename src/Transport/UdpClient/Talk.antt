-- ===== src/Transport/UdpClient/Talk.antt =====
-- The one exchange of udp_client.c.
use operating_systems_and_ne.Base.{
  ℕ, ◌≡◌, ◌<◌, refl, some, true, List, [], ◌∷◌, ◌++◌, length, take, length-take, ltb, arith,
}
use operating_systems_and_ne.Os.{
  exit_success, exit_failure, Bytes, Fd, Answer, fails, gives, delivers, Event, was_closed,
  was_received, was_sent, printed, failed, complained, World, Outcome, returns, exits, waits,
  then_run, c_string, note,
}
use operating_systems_and_ne.Os.Datagrams.{recvfrom, sendto}
use operating_systems_and_ne.Transport.UdpServer.{buf_size}
use operating_systems_and_ne.Transport.UdpServer.Datagrams.{c_string-terminated}
use operating_systems_and_ne.Transport.UdpClient.{reply, has_socket}

-- How the client ends once it has a socket, from the log `l` on.
pub data Talked (msg : Bytes) (server : ℕ) (sock : Fd) (l : List Event) : Outcome ℕ → Type 0 where
  answered :
      (bs text : Bytes) (from : ℕ) {w : World}
      → c_string (take 4095 bs ++ (0 ∷ [])) ≡ some text
      → w.log
        ≡ was_closed sock
          ∷ printed "recieved: '%s'\n" (text ∷ []) []
          ∷ was_received sock (take 4095 bs) from
          ∷ was_sent sock msg server
          ∷ l
      → Talked msg server sock l (returns exit_success w)
  not_sent :
      {e : ℕ} {w : World}
      → w.log ≡ complained "sendto" ∷ failed e ∷ l
      → Talked msg server sock l (exits exit_failure w)
  not_answered :
      {e : ℕ} {w : World}
      → w.log ≡ complained "recvfrom" ∷ failed e ∷ was_sent sock msg server ∷ l
      → Talked msg server sock l (exits exit_failure w)
  blocks : {w : World} → Talked msg server sock l (waits w)

take_fits : (bs : Bytes) → ltb (length (take 4095 bs)) buf_size ≡ true
take_fits bs = go (length (take 4095 bs)) (omega (arith, length-take 4095 bs))
  where
    go : (n : ℕ) → n < buf_size → ltb n buf_size ≡ true
    go n l = ground arith

reply-returns :
    (sock : Fd) (bs : Bytes) (from : ℕ) (w : World)
    → (v : World) × (reply sock (some (take 4095 bs, from)) w ≡ returns exit_success v)
reply-returns sock bs from w =
    let (text, c) = c_string-terminated (take 4095 bs) in
    let fits = take_fits bs in
    (note (was_closed sock) (note (printed "recieved: '%s'\n" (text ∷ []) []) w), rw (fits, c) refl)

module _ (msg : Bytes) (server : ℕ) (sock : Fd) (l : List Event) where
  reply-answered :
      (more : List Answer) (e : ℕ) (bs : Bytes) (from : ℕ)
      → Talked msg server sock l (
          reply sock (some (take 4095 bs, from)) (record {
            answers = more;
            errno = e;
            log = was_received sock (take 4095 bs) from ∷ was_sent sock msg server ∷ l;
          }))
  reply-answered more e bs from =
      let (text, c) = c_string-terminated (take 4095 bs) in
      let fits = take_fits bs in rw (fits, c) (Talked.answered bs text from c refl)

  received-Talked :
      (more : List Answer) (e : ℕ)
      → Talked msg server sock l (
          then_run
            (recvfrom sock 4095
              (record { answers = more; errno = e; log = was_sent sock msg server ∷ l }))
            (reply sock))
  unfolding recvfrom
  received-Talked [] e = Talked.blocks
  received-Talked (fails x ∷ more) e = Talked.not_answered refl
  received-Talked (delivers bs from ∷ more) e = reply-answered more e bs from
  received-Talked (other ∷ more) e = Talked.blocks

has_socket-Talked :
    (msg : Bytes) (server : ℕ) (sock : Fd) (more : List Answer) (e : ℕ) (l : List Event)
    → Talked msg server sock l
        (has_socket msg server (some sock) (record { answers = more; errno = e; log = l }))
unfolding sendto
has_socket-Talked msg server sock [] e l = Talked.blocks
has_socket-Talked msg server sock (fails x ∷ more) e l = Talked.not_sent refl
has_socket-Talked msg server sock (gives k ∷ more) e l = received-Talked msg server sock l more e
has_socket-Talked msg server sock (other ∷ more) e l = Talked.blocks

-- udp_client.c from its socket on, whatever the kernel answers: it sends its message at most once, whole,
-- to the server. If it returns, it is EXIT_SUCCESS, and it has printed the text of the first datagram that came
-- in, cut to the buffer, and closed the socket once; if it exits, it is with EXIT_FAILURE, after a
-- complaint. No byte is written outside of the buffer. And once the message is sent and a datagram has
-- come in, it does return.
pub udp_client_lem :
    (msg : Bytes) (server : ℕ) (sock : Fd) (more : List Answer) (e : ℕ) (l : List Event)
    → Talked msg server sock l
        (has_socket msg server (some sock) (record { answers = more; errno = e; log = l }))
      × ((k from : ℕ) (bs : Bytes)
          → (w : World) × (has_socket msg server
                (some sock)
                (record { answers = gives k ∷ delivers bs from ∷ more; errno = e; log = l })
              ≡ returns exit_success w))
unfolding sendto recvfrom
udp_client_lem msg server sock more e l = (
  has_socket-Talked msg server sock more e l,
  λ k from bs. reply-returns sock bs from (record {
    answers = more;
    errno = e;
    log = was_received sock (take 4095 bs) from ∷ was_sent sock msg server ∷ l;
  }),
)
