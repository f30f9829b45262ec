-- ===== src/Transport/EchoServer.antt =====
-- tcp_server.c: sends back what a client sends, until SIGINT. The handler sets `running` to 0 at any
-- moment, so a test of `running` is answered like a call; `sigaction` has no SA_RESTART, so a signal
-- ends a waiting call with EINTR. The client's address is left out of what is printed.
pub mod Echo
pub mod Enough
pub mod Serving
use operating_systems_and_ne.Base.{
  ℕ, zero, suc, Bool, true, false, Option, none, some, List, [], ◌∷◌, ◌==◌, drop,
}
use operating_systems_and_ne.Base.Int.{ℤ, int_bits}
use operating_systems_and_ne.Os.{
  exit_success, exit_failure, Bytes, Fd, Answer, gives, returns, waits, no_fuel, M, pure, exit,
  ◌>>=◌, ◌>>◌, ask, with_fuel, read, write, close, perror, printf,
}
use operating_systems_and_ne.Os.Process.{fprintf_stderr, number_call}

abbrev pub buffer_size : ℕ
buffer_size = 1024

abbrev pub eintr : ℕ
eintr = 4

abbrev pub running_answer : Answer → M Bool
running_answer (gives zero) w = returns false w
running_answer (gives (suc n)) w = returns true w
running_answer a w = waits w

-- A test of `running`.
unfoldable pub running : M Bool
running = ask running_answer

-- `errno == EINTR`
abbrev pub interrupted : M Bool
interrupted w = returns (w.errno == eintr) w

-- After a call that failed: `continue` on EINTR, or `return -1`.
abbrev pub retry : M Bool → Bool → M Bool
retry loop true = loop
retry loop false = pure false

-- The loop `while (rb)` over the bytes at `bufp`; `false` is -1.
abbrev pub while_left : (Bytes → M Bool) → Bytes → M Bool
while_left loop [] = pure true
while_left loop (b ∷ bs) = loop (b ∷ bs)

abbrev pub after_write : (Bytes → M Bool) → Bytes → Option ℕ → M Bool
after_write loop bufp none = interrupted >>= retry (loop bufp)
after_write loop bufp (some wb) = while_left loop (drop wb bufp)

pub write_loop : ℕ → Fd → Bytes → M Bool
write_loop zero cfd bufp = no_fuel
write_loop (suc fuel) cfd bufp = write cfd bufp >>= after_write (write_loop fuel cfd) bufp

-- `handle_client`: `true` is 0, `false` is -1.
abbrev pub go_on : M Bool → Bool → M Bool
go_on loop true = loop
go_on loop false = pure false

abbrev pub after_read : M Bool → Fd → Option Bytes → M Bool
after_read loop cfd none = interrupted >>= retry loop
after_read loop cfd (some []) = pure true
after_read loop cfd (some (b ∷ bs)) = with_fuel (λ f. write_loop f cfd (b ∷ bs)) >>= go_on loop

abbrev pub while_running : M Bool → Fd → Bool → M Bool
while_running loop cfd false = pure false
while_running loop cfd true = read cfd buffer_size >>= after_read loop cfd

pub client_loop : ℕ → Fd → M Bool
client_loop zero cfd = no_fuel
client_loop (suc fuel) cfd = running >>= while_running (client_loop fuel cfd) cfd

pub handle_client : Fd → M Bool
handle_client cfd = with_fuel (λ f. client_loop f cfd)

-- The loop of `main`.
abbrev pub complain : Bool → M (Unit {0})
complain true = pure tt
complain false = fprintf_stderr "Error: %s" [] []

abbrev pub handled : Bool → M (Unit {0})
handled true = pure tt
handled false = interrupted >>= complain

abbrev pub accept_failed : M ℕ → Bool → M ℕ
accept_failed loop true = loop
accept_failed loop false = do perror "accept"; exit exit_failure

abbrev pub accepted : M ℕ → Option Fd → M ℕ
accepted loop none = interrupted >>= accept_failed loop
accepted loop (some cfd) = do
  printf "new client connected from '%s:%d'\n" [] []
  served ← handle_client cfd
  handled served
  printf "Client disconnected\n" [] []
  close cfd
  loop

abbrev pub serve_running : M ℕ → Fd → Bool → M ℕ
serve_running loop server_fd true = number_call >>= accepted loop
serve_running loop server_fd false = do
  printf "Stopping server" [] []
  close server_fd
  pure exit_success

pub serve : ℕ → Fd → M ℕ
serve zero server_fd = no_fuel
serve (suc fuel) server_fd = running >>= serve_running (serve fuel server_fd) server_fd

-- `main` before its loop: each call is checked, and a failure ends the process.
abbrev pub signals_set : Fd → Option ℕ → M ℕ
signals_set server_fd none = do perror "sigaction"; exit exit_failure
signals_set server_fd (some _) = with_fuel (λ f. serve f server_fd)

abbrev pub listening : ℕ → Fd → Option ℕ → M ℕ
listening port server_fd none = do perror "listen"; exit exit_failure
listening port server_fd (some _) = do
  printf "Server is listening on %d\n" [] (port ∷ [])
  set ← number_call
  signals_set server_fd set

abbrev pub bound : ℕ → Fd → Option ℕ → M ℕ
bound port server_fd none = do perror "listen"; exit exit_failure
bound port server_fd (some _) = do err ← number_call; listening port server_fd err

abbrev pub has_socket : ℕ → Option Fd → M ℕ
has_socket port none = do perror "socket"; exit exit_failure
has_socket port (some server_fd) = do err ← number_call; bound port server_fd err

-- `atoi` is the C library's. The port, which is only printed and made an address of, is passed on as
-- the bits of the `int`.
pub main : (Bytes → ℤ) → List Bytes → M ℕ
main atoi (name ∷ port ∷ more) = do fd ← number_call; has_socket (int_bits (atoi port)) fd
main atoi argv = do printf "Usage: %s [port]\n" argv []; exit exit_failure
