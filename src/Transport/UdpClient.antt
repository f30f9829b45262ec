-- ===== src/Transport/UdpClient.antt =====
-- udp_client.c: sends one datagram and prints the one that comes back. The destination is the bytes of
-- its address and its port.
pub mod Talk
use operating_systems_and_ne.Base.{
  ℕ, ◌-◌, Option, none, some, List, [], ◌∷◌, ◌++◌, length, ltb, if◌then◌else◌,
}
use operating_systems_and_ne.Base.Int.{ℤ, int_bits}
use operating_systems_and_ne.Os.{
  exit_failure, exit_success, Bytes, Fd, undefined, M, pure, exit, ◌>>=◌, ◌>>◌, close, perror,
  printf, c_string,
}
use operating_systems_and_ne.Os.Process.{number_call}
use operating_systems_and_ne.Os.Datagrams.{Datagram, recvfrom, sendto}
use operating_systems_and_ne.Transport.Addresses.{
  inet, Parsed, address, not_in_format, unsupported, InetPton,
}
use operating_systems_and_ne.Transport.UdpServer.{buf_size, terminated}

abbrev pub print_reply : Option Bytes → M (Unit {0})
print_reply none = undefined
print_reply (some text) = printf "recieved: '%s'\n" (text ∷ []) []

-- The address of whoever sent the reply is not asked for.
abbrev pub reply : Fd → Option Datagram → M ℕ
reply sock none = do perror "recvfrom"; exit exit_failure
reply sock (some (bs, from)) = do
  buffer ← terminated bs
  print_reply (c_string buffer)
  close sock
  pure exit_success

abbrev pub after_send : Fd → Option ℕ → M ℕ
after_send sock none = do perror "sendto"; exit exit_failure
after_send sock (some len) = do rb ← recvfrom sock (buf_size - 1); reply sock rb

abbrev pub has_socket : Bytes → ℕ → Option Fd → M ℕ
has_socket msg server none = do perror "socket"; exit exit_failure
has_socket msg server (some sock) = do len ← sendto sock (msg, server); after_send sock len

-- `inet_addr` makes one number of the bytes at `sin_addr` and the port. Where `inet_pton` gives 0 the
-- address stays what `memset` made it.
module _ (inet_addr : Bytes → ℕ → ℕ) where
  abbrev pub parsed : Bytes → ℕ → Parsed → M ℕ
  parsed msg port unsupported = do perror "inet_pton"; exit exit_failure
  parsed msg port not_in_format = do
    sock ← number_call
    has_socket msg (inet_addr (0 ∷ 0 ∷ 0 ∷ 0 ∷ []) port) sock
  parsed msg port (address bs) = do sock ← number_call; has_socket msg (inet_addr bs port) sock

  -- `atoi` and `inet_pton` are the C library's. The port is passed on as the bits of the `int`.
  pub main : (Bytes → ℤ) → InetPton → List Bytes → M ℕ
  main atoi inet_pton (name ∷ hostname ∷ port ∷ msg ∷ more) =
      parsed msg (int_bits (atoi port)) (inet_pton inet hostname)
  main atoi inet_pton argv = do
    printf "Usage: %s <hostname> <port> msg\n" argv []
    exit exit_failure
