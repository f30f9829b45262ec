-- ===== src/Transport/EchoServer/Serving.antt =====
-- The accept loop of tcp_server.c and its `main`.
use native.Mathlib.Nat.{le_refl}
use operating_systems_and_ne.Base.{
  ℕ, zero, suc, ◌≤◌, ◌<◌, ◌≡◌, ◌==◌, refl, Bool, true, false, Option, none, some, List, [], ◌∷◌,
  length, arith,
}
use operating_systems_and_ne.Os.{
  Fd, Event, was_closed, printed, Answer, fails, gives, World, Outcome, returns, exits, becomes,
  waits, undefined, no_fuel, ◌>>◌, printf, close, then_run, answered, M, note, exit_success,
  exit_failure,
}
use operating_systems_and_ne.Os.Fuel.{Fueled}
use operating_systems_and_ne.Os.Process.{number_answer, number_call}
use operating_systems_and_ne.Transport.EchoServer.{
  eintr, running_answer, running, handle_client, complain, handled, accept_failed, accepted,
  serve_running, serve, signals_set, listening, bound, has_socket,
}
use operating_systems_and_ne.Transport.EchoServer.Echo.{Echoed}
use operating_systems_and_ne.Transport.EchoServer.Enough.{handle_client_lem}

-- The run does not use up its fuel. If it returns, it is EXIT_SUCCESS, and the last it did was to
-- close the server's socket; if it exits, it is with EXIT_FAILURE.
abbrev pub Stops : ℕ → Fd → Outcome ℕ → Type 0
Stops n server_fd (returns code w) =
    (length w.answers ≤ n)
    × (code ≡ exit_success)
    × ((l : List Event) × (w.log ≡ was_closed server_fd ∷ printed "Stopping server" [] [] ∷ l))
Stops n server_fd (exits code w) = code ≡ exit_failure
Stops n server_fd (becomes file args w) = Unit
Stops n server_fd (waits w) = Unit
Stops n server_fd (undefined w) = Unit
Stops n server_fd (no_fuel w) = ⊥

-- A call whose answer is a number, and then the rest.
number_call-Stops :
    (n : ℕ) (server_fd : Fd) (w : World) (f : Option ℕ → M ℕ)
    → ((a : Option ℕ) (v : World) → length v.answers < length w.answers → Stops n server_fd (f a v))
    → Stops n server_fd (then_run (number_call w) f)
unfolding number_call
number_call-Stops n server_fd w f rest = go w.answers (λ a v h. rest a v h)
  where
    go :
        (more : List Answer)
        → ((a : Option ℕ) (v : World) → length v.answers < length more → Stops n server_fd (f a v))
        → Stops n server_fd (then_run (answered number_answer w more) f)
    go [] h = tt
    go (fails x ∷ more) h = h none _ (omega arith)
    go (gives k ∷ more) h = h (some k) _ (omega arith)
    go (other ∷ more) h = tt

-- After a client is served, whatever came of it.
served-Stops :
    (n : ℕ) (server_fd cfd : Fd) (loop : M ℕ) (w : World) (o : Outcome Bool)
    → Echoed cfd w o
    → Fueled (length w.answers) o
    → ((v : World) → length v.answers ≤ length w.answers → Stops n server_fd (loop v))
    → Stops n server_fd (
        then_run o
          λ served. handled served >> (printf "Client disconnected\n" [] [] >> (close cfd >> loop)))
served-Stops n server_fd cfd loop w (returns true v) e m rest = rest _ m
served-Stops n server_fd cfd loop w (returns false v) e m rest = go (v.errno == eintr)
  where
    go :
        (b : Bool)
        → Stops n server_fd
            ((complain b >> (printf "Client disconnected\n" [] [] >> (close cfd >> loop))) v)
    go true = rest _ m
    go false = rest _ m
served-Stops n server_fd cfd loop w (exits code v) e m rest = absurd e
served-Stops n server_fd cfd loop w (becomes file args v) e m rest = tt
served-Stops n server_fd cfd loop w (waits v) e m rest = tt
served-Stops n server_fd cfd loop w (undefined v) e m rest = tt
served-Stops n server_fd cfd loop w (no_fuel v) e m rest = m

accepted-Stops :
    (n : ℕ) (server_fd : Fd) (loop : M ℕ) (a : Option Fd) (w : World)
    → ((v : World) → length v.answers ≤ length w.answers → Stops n server_fd (loop v))
    → Stops n server_fd (accepted loop a w)
accepted-Stops n server_fd loop none w rest = go (w.errno == eintr)
  where
    go : (b : Bool) → Stops n server_fd (accept_failed loop b w)
    go true = rest w (le_refl _)
    go false = refl
accepted-Stops n server_fd loop (some cfd) w rest =
    let met = note (printed "new client connected from '%s:%d'\n" [] []) w in
    let h = handle_client_lem cfd met in
    served-Stops n server_fd cfd loop met (handle_client cfd met) h.0 h.1 rest

serve-Stops :
    (f n : ℕ) (server_fd : Fd) (w : World)
    → length w.answers < f
    → length w.answers ≤ n
    → Stops n server_fd (serve f server_fd w)
unfolding serve running
serve-Stops zero n server_fd w l m = absurd (omega arith)
serve-Stops (suc f) n server_fd w l m =
    go w.answers m (λ v less. serve-Stops f n server_fd v (omega arith) (omega arith))
  where
    go :
        (more : List Answer)
        → length more ≤ n
        → ((v : World) → length v.answers < length more → Stops n server_fd (serve f server_fd v))
        → Stops n server_fd (
            then_run (answered running_answer w more) (serve_running (serve f server_fd) server_fd))
    go [] m ih = tt
    go (gives zero ∷ more) m ih = (omega arith, refl, (w.log, refl))
    go (gives (suc k) ∷ more) m ih =
        number_call-Stops n server_fd (record w { answers = more }) (accepted (serve f server_fd))
          λ a v less.
            accepted-Stops n server_fd (serve f server_fd) a v (λ u small. ih u (omega arith))
    go (other ∷ more) m ih = tt

-- tcp_server from the server's socket on, whatever the kernel answers and whenever SIGINT arrives.
-- If it returns, it is EXIT_SUCCESS, and the last it did was to print that it stops and to close the
-- server's socket. If it exits, it is with EXIT_FAILURE. Its loops never run out of fuel.
pub server_lem :
    (port : ℕ) (server_fd : Fd) (w : World)
    → Stops (length w.answers) server_fd (has_socket port (some server_fd) w)
server_lem port server_fd w =
    number_call-Stops (length w.answers) server_fd w (bound port server_fd)
      λ a v less. after_bind a v less
  where
    after_signals :
        (a : Option ℕ) (v : World)
        → length v.answers < length w.answers
        → Stops (length w.answers) server_fd (signals_set server_fd a v)
    after_signals none v less = refl
    after_signals (some k) v less =
        serve-Stops (suc (length v.answers)) (length w.answers) server_fd v (le_refl _)
          (omega arith)

    after_listen :
        (a : Option ℕ) (v : World)
        → length v.answers < length w.answers
        → Stops (length w.answers) server_fd (listening port server_fd a v)
    after_listen none v less = refl
    after_listen (some k) v less =
        number_call-Stops (length w.answers) server_fd
          (note (printed "Server is listening on %d\n" [] (port ∷ [])) v) (signals_set server_fd)
          λ a u small. after_signals a u (omega arith)

    after_bind :
        (a : Option ℕ) (v : World)
        → length v.answers < length w.answers
        → Stops (length w.answers) server_fd (bound port server_fd a v)
    after_bind none v less = refl
    after_bind (some k) v less =
        number_call-Stops (length w.answers) server_fd v (listening port server_fd)
          λ a u small. after_listen a u (omega arith)
