-- ===== src/Transport/Client.antt =====
-- tcp_client.c and httpget.c: both connect, send a message with `write` until nothing of it is left,
-- and print what comes back. The arguments are C strings, without their terminators; `getaddrinfo`
-- answers with the number of addresses that it found. `atoi` only makes the port of the address.
pub mod Sending
pub mod Enough
use Prim.Native.String.{String}
use operating_systems_and_ne.Base.{
  ℕ, zero, suc, ◌-◌, ◌<◌, ltb, leb, Bool, true, false, Option, none, some, List, [], ◌∷◌, ◌++◌,
  length, drop, if◌then◌else◌,
}
use operating_systems_and_ne.Os.{
  exit_success, exit_failure, Bytes, Fd, no_fuel, M, pure, exit, ◌>>=◌, ◌>>◌, with_fuel, read,
  write, close, perror, printf, codes,
}
use operating_systems_and_ne.Os.Process.{fprintf_stderr, number_call, shutdown}

-- BUFF_SIZE of tcp_client.c and `buff_size` of httpget.c
abbrev pub buff_size : ℕ
buff_size = 4096

abbrev pub request_size : ℕ
request_size = 4096

-- The loop `while (msglen)` or `while (hdrlen)` over what is left of the message. Its length is an `int`
-- of the program; here it has no bound, which an argument of a program does not reach.
abbrev pub after_write : (Bytes → M (Unit {0})) → Bytes → Option ℕ → M (Unit {0})
after_write loop msg none = do perror "write"; exit exit_failure
after_write loop msg (some wb) = loop (drop wb msg)

pub send_loop : ℕ → Fd → Bytes → M (Unit {0})
send_loop zero sock msg = no_fuel
send_loop (suc fuel) sock [] = pure tt
send_loop (suc fuel) sock (b ∷ bs) =
    write sock (b ∷ bs) >>= after_write (send_loop fuel sock) (b ∷ bs)

-- What `%s` prints of a buffer: the bytes before the first 0.
abbrev pub until_zero : Bytes → Bytes
until_zero [] = []
until_zero (zero ∷ bs) = []
until_zero (suc b ∷ bs) = suc b ∷ until_zero bs

-- The loop `while ((rb = read(...)) > 0)`.
abbrev pub after_read : M (Unit {0}) → Option Bytes → M (Unit {0})
after_read loop none = do perror "read"; exit exit_failure
after_read loop (some []) = pure tt
after_read loop (some (b ∷ bs)) = do printf "%s" (until_zero (b ∷ bs) ∷ []) []; loop

pub receive_loop : ℕ → Fd → M (Unit {0})
receive_loop zero sock = no_fuel
receive_loop (suc fuel) sock = read sock (buff_size - 1) >>= after_read (receive_loop fuel sock)

-- From the sent message on.
abbrev pub receive : Fd → M ℕ
receive sock = do with_fuel (λ f. receive_loop f sock); close sock; pure exit_success

-- tcp_client.c from `connect` on.
abbrev pub after_shutdown : Fd → Option (Unit {0}) → M ℕ
after_shutdown sock none = do perror "shutdown"; exit exit_failure
after_shutdown sock (some _) = receive sock

pub tcp_talk : Fd → Bytes → M ℕ
tcp_talk sock msg = do
  with_fuel (λ f. send_loop f sock msg)
  s ← shutdown sock
  after_shutdown sock s

abbrev pub tcp_connected : Fd → Bytes → Option ℕ → M ℕ
tcp_connected sock msg none = do perror "connect"; exit exit_failure
tcp_connected sock msg (some _) = tcp_talk sock msg

abbrev pub tcp_socket : Bytes → Option Fd → M ℕ
tcp_socket msg none = do perror "socket"; exit exit_failure
tcp_socket msg (some sock) = do c ← number_call; tcp_connected sock msg c

abbrev pub tcp_address : Bytes → Option ℕ → M ℕ
tcp_address msg none = do perror "inet_pton"; exit exit_failure
tcp_address msg (some _) = do sock ← number_call; tcp_socket msg sock

-- `main` of tcp_client.c
pub tcp_client : List Bytes → M ℕ
tcp_client (name ∷ hostname ∷ port ∷ msg ∷ more) = do parsed ← number_call; tcp_address msg parsed
tcp_client argv = do printf "Usage: %s <hostname> <port> msg\n" argv []; exit exit_failure

-- `request_template` filled in by `snprintf`.
abbrev pub request_of : Bytes → Bytes → Bytes
request_of uri hostname =
    codes "GET "
    ++ (uri ++ (codes " HTTP/1.1\r\nHost: " ++ (hostname ++ codes "\r\nConnection: close\r\n\r\n")))

-- httpget.c from the connection on.
abbrev pub send_request : Fd → Bytes → M ℕ
send_request sfd request = do
  printf "%s" (request ∷ []) []
  with_fuel (λ f. send_loop f sfd request)
  receive sfd

pub http_talk : Fd → Bytes → M ℕ
http_talk sfd request =
    if leb request_size (length request)
    then (do fprintf_stderr "To long request header\n" [] []; exit exit_failure)
    else send_request sfd request

-- The loop over the addresses: the first one that takes a connection.
abbrev pub connect_result : M (Option Fd) → Fd → Option ℕ → M (Option Fd)
connect_result rest sfd none = do perror "connect"; rest
connect_result rest sfd (some _) = pure (some sfd)

abbrev pub socket_result : M (Option Fd) → Option Fd → M (Option Fd)
socket_result rest none = do perror "socket"; rest
socket_result rest (some sfd) = do
  printf "connecting to %s:%d\n" [] []
  c ← number_call
  connect_result rest sfd c

pub try_addresses : ℕ → M (Option Fd)
try_addresses zero = pure none
try_addresses (suc left) = do s ← number_call; socket_result (try_addresses left) s

-- `snprintf` answers with -1 or has written the request.
abbrev pub formatted : Fd → Bytes → Option ℕ → M ℕ
formatted sfd request none = do perror "snprintf"; exit exit_failure
formatted sfd request (some rv) = http_talk sfd request

abbrev pub connected : Bytes → Option Fd → M ℕ
connected request none = do fprintf_stderr "Connection failed\n" [] []; exit exit_failure
connected request (some sfd) = do rv ← number_call; formatted sfd request rv

abbrev pub resolved : Bytes → Option ℕ → M ℕ
resolved request none = do fprintf_stderr "getaddrinfo: %s\n" [] []; exit exit_failure
resolved request (some addresses) = do sfd ← try_addresses addresses; connected request sfd

-- `main` of httpget.c
pub httpget : List Bytes → M ℕ
httpget (name ∷ hostname ∷ uri ∷ more) = do rv ← number_call; resolved (request_of uri hostname) rv
httpget argv = do printf "Usage: %s <hostname> <uri>\n" argv []; exit exit_failure
