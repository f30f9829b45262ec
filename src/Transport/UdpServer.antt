-- ===== src/Transport/UdpServer.antt =====
-- udp_server.c: sends each datagram back to where it came from, until SIGINT. As in tcp_server.c a test
-- of `running` is answered like a call, and a signal ends a waiting call with EINTR. An address is
-- printed as a number.
pub mod Datagrams
pub mod Serving
pub mod Enough
use operating_systems_and_ne.Base.{
  ℕ, zero, suc, ◌-◌, Bool, true, false, Option, none, some, List, [], ◌∷◌, ◌++◌, length, ltb, ◌==◌,
  if◌then◌else◌,
}
use operating_systems_and_ne.Base.Int.{ℤ, int_bits}
use operating_systems_and_ne.Os.{
  exit_failure, Bytes, Fd, returns, undefined, no_fuel, M, pure, exit, ◌>>=◌, ◌>>◌, with_fuel,
  close, perror, printf, c_string,
}
use operating_systems_and_ne.Os.Process.{number_call}
use operating_systems_and_ne.Os.Datagrams.{Datagram, recvfrom, sendto}
use operating_systems_and_ne.Transport.EchoServer.{eintr, running}

abbrev pub buf_size : ℕ
buf_size = 4096

-- After a `recvfrom` that gave -1. Were `errno` 0, the code would go on to `buffer[-1]`.
abbrev pub recv_failed : M ℕ → ℕ → M ℕ
recv_failed loop errno =
    if errno == 0
    then undefined
    else if errno == eintr
    then loop
    else do perror "recvfrom"; exit exit_failure

-- `buffer[len] = '\0'`
abbrev pub terminated : Bytes → M Bytes
terminated bs = if ltb (length bs) buf_size then pure (bs ++ (0 ∷ [])) else undefined

abbrev pub print_received : ℕ → Option Bytes → M (Unit {0})
print_received address none = undefined
print_received address (some text) =
    printf "received: '%s' from client %s:%d\n" (text ∷ []) (address ∷ [])

abbrev pub after_send : M ℕ → Option ℕ → M ℕ
after_send loop none = do perror "sendto"; exit exit_failure
after_send loop (some k) = loop

abbrev pub after_recv : M ℕ → Fd → Option Datagram → M ℕ
after_recv loop sock none w = recv_failed loop w.errno w
after_recv loop sock (some (bs, address)) w =
    (do
      buffer ← terminated bs
      print_received address (c_string buffer)
      len ← sendto sock (bs, address)
      after_send loop len)
      w

abbrev pub while_running : M ℕ → Fd → Bool → M ℕ
while_running loop sock true = recvfrom sock (buf_size - 1) >>= after_recv loop sock
while_running loop sock false = do printf "Finishing server\n" [] []; close sock; pure 0

pub serve : ℕ → Fd → M ℕ
serve zero sock = no_fuel
serve (suc fuel) sock = running >>= while_running (serve fuel sock) sock

-- `main` before its loop: each call is checked, and a failure ends the process.
abbrev pub signals_set : Fd → Option ℕ → M ℕ
signals_set sock none = do perror "sigaction"; exit exit_failure
signals_set sock (some _) = do
  printf "Waiting for incomming packets\n" [] []
  with_fuel (λ f. serve f sock)

abbrev pub bound : Fd → Option ℕ → M ℕ
bound sock none = do perror "bind"; exit exit_failure
bound sock (some _) = do set ← number_call; signals_set sock set

abbrev pub has_socket : ℕ → Option Fd → M ℕ
has_socket server_port none = do perror "socket"; exit exit_failure
has_socket server_port (some sock) = do
  printf "Starting UDP server on %d\n" [] (server_port ∷ [])
  err ← number_call
  bound sock err

-- `atoi` is the C library's. The port, which is only printed and made an address of, is passed on as
-- the bits of the `int`.
pub main : (Bytes → ℤ) → List Bytes → M ℕ
main atoi (name ∷ port ∷ more) = do sock ← number_call; has_socket (int_bits (atoi port)) sock
main atoi argv = do printf "Usage: %s <port>\n" argv []; exit exit_failure
