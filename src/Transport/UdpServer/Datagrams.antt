-- ===== src/Transport/UdpServer/Datagrams.antt =====
-- What udp_server.c receives and what it sends.
use mathlib.Core.List.{append-nil, append_assoc}
use operating_systems_and_ne.Base.{
  ℕ, zero, suc, ◌≤◌, ◌<◌, ◌≡◌, ◌≢◌, refl, sym, ap, ◌∙◌, ◌==◌, Bool, true, false, some, List, [],
  ◌∷◌, ◌++◌, length, take, length-take, arith, if◌then◌else◌, ltb,
}
use operating_systems_and_ne.Os.{
  exit_success, exit_failure, Bytes, Fd, Answer, fails, gives, delivers, Event, was_closed,
  was_received, was_sent, failed, printed, World, Outcome, returns, exits, becomes, waits,
  undefined, no_fuel, then_run, M, c_string, note, perror, exit, ◌>>◌,
}
use operating_systems_and_ne.Os.Datagrams.{
  Datagram, recvfrom, sendto, received, sent, part_received, part_sent,
}
use operating_systems_and_ne.Transport.EchoServer.{eintr}
use operating_systems_and_ne.Transport.UdpServer.{
  buf_size, recv_failed, after_send, after_recv, while_running,
}

-- A call that fails sets `errno` to a number other than 0.
abbrev pub SetsErrno : List Answer → Type 0
SetsErrno [] = Unit
SetsErrno (fails e ∷ more) = (e ≢ 0) × SetsErrno more
SetsErrno (other ∷ more) = SetsErrno more

-- From the log `l` to the log `l'` the socket sent back all that it received but for `rest`.
pub record Echoed (sock : Fd) (l l' : List Event) (rest : List Datagram) : Type 0 where
  pub answered_all : List Datagram
  pub came_in : received sock l' ≡ received sock l ++ (answered_all ++ rest)
  pub went_out : sent sock l' ≡ sent sock l ++ answered_all

abbrev pub AllButOne : Fd → List Event → List Event → Type 0
AllButOne sock l l' = (rest : List Datagram) × Echoed sock l l' rest × (length rest ≤ 1)

-- How the server ends or waits, with at most `n` answers left.
abbrev pub Served : ℕ → Fd → List Event → Outcome ℕ → Type 0
Served n sock l (returns code w) =
    (length w.answers ≤ n)
    × (code ≡ exit_success)
    × Echoed sock l w.log []
    × ((before : List Event) × (w.log
          ≡ was_closed sock ∷ printed "Finishing server\n" [] [] ∷ before))
Served n sock l (exits code w) = (code ≡ exit_failure) × AllButOne sock l w.log
Served n sock l (waits w) = AllButOne sock l w.log
Served n sock l (becomes file args w) = ⊥
Served n sock l (undefined w) = ⊥
Served n sock l (no_fuel w) = ⊥

pub quiet :
    (sock : Fd) (l l' : List Event)
    → received sock l' ≡ received sock l
    → sent sock l' ≡ sent sock l
    → Echoed sock l l' []
quiet sock l l' r s = record {
  answered_all = [];
  came_in = r ∙ sym (append-nil _);
  went_out = s ∙ sym (append-nil _);
}

pub quiet_one : (sock : Fd) (l : List Event) → AllButOne sock l l
quiet_one sock l = ([], quiet sock l l refl refl, omega arith)

-- What came before, and was sent back.
Echoed-after :
    (sock : Fd) (l l' l'' : List Event) (ds rest : List Datagram)
    → received sock l' ≡ received sock l ++ ds
    → sent sock l' ≡ sent sock l ++ ds
    → Echoed sock l' l'' rest
    → Echoed sock l l'' rest
Echoed-after sock l l' l'' ds rest r h c = record {
  answered_all = ds ++ c.answered_all;
  came_in = simp (c.came_in, r, append_assoc);
  went_out = simp (c.went_out, h, append_assoc);
}

pub Served-after :
    (n : ℕ) (sock : Fd) (l l' : List Event) (ds : List Datagram) (o : Outcome ℕ)
    → received sock l' ≡ received sock l ++ ds
    → sent sock l' ≡ sent sock l ++ ds
    → Served n sock l' o
    → Served n sock l o
Served-after n sock l l' ds (returns code w) r h (m, c, e, b) =
    (m, c, Echoed-after sock l l' w.log ds [] r h e, b)
Served-after n sock l l' ds (exits code w) r h (c, (rest, e, few)) =
    (c, (rest, Echoed-after sock l l' w.log ds rest r h e, few))
Served-after n sock l l' ds (waits w) r h (rest, e, few) =
    (rest, Echoed-after sock l l' w.log ds rest r h e, few)
Served-after n sock l l' ds (becomes file args w) r h c = c
Served-after n sock l l' ds (undefined w) r h c = c
Served-after n sock l l' ds (no_fuel w) r h c = c

-- An array with a terminator has a text.
pub c_string-terminated : (bs : Bytes) → (text : Bytes) × (c_string (bs ++ (0 ∷ [])) ≡ some text)
unfolding c_string
c_string-terminated [] = ([], refl)
c_string-terminated (zero ∷ bs) = ([], refl)
c_string-terminated (suc b ∷ bs) =
    let (text, e) = c_string-terminated bs in (suc b ∷ text, rw e refl)

abbrev pub receipt : Bytes → ℕ → Event
receipt text address = printed "received: '%s' from client %s:%d\n" (text ∷ []) (address ∷ [])

-- A datagram that fits into the buffer is printed, and then it is sent back.
pub after_recv-sendto :
    (loop : M ℕ) (sock : Fd) (bs : Bytes) (address : ℕ) (w : World)
    → length bs < buf_size
    → (text : Bytes) × (after_recv loop sock (some (bs, address)) w
        ≡ then_run (sendto sock (bs, address) (note (receipt text address) w)) (after_send loop))
after_recv-sendto loop sock bs address w l =
    let (text, e) = c_string-terminated bs in
    let fits : ltb (length bs) buf_size ≡ true = ground arith in (text, rw (fits, e) refl)

part_received-same :
    (sock : Fd) (bs : Bytes) (address : ℕ)
    → part_received sock (was_received sock bs address) ≡ (bs, address) ∷ []
part_received-same sock bs address = ground arith

part_sent-same :
    (sock : Fd) (bs : Bytes) (address : ℕ)
    → part_sent sock (was_sent sock bs address) ≡ (bs, address) ∷ []
part_sent-same sock bs address = ground arith

module _ (n : ℕ) (sock : Fd) (loop : M ℕ) where
  abbrev Goes : List Answer → Type 0
  Goes more =
      (e : ℕ) (l : List Event)
      → Served n sock l (loop (record { answers = more; errno = e; log = l }))

  refused-Served :
      (more : List Answer) (x : ℕ) (l : List Event)
      → x ≢ 0
      → Goes more
      → Served n sock l
          (recv_failed loop x (record { answers = more; errno = x; log = failed x ∷ l }))
  refused-Served more x l set go =
      let fault : (x == 0) ≡ false = ground arith in rw fault (again (x == eintr))
    where
      again :
          (b : Bool)
          → Served n sock l (
              (if b then loop else (perror "recvfrom" >> exit exit_failure))
                (record { answers = more; errno = x; log = failed x ∷ l }))
      again true = Served-after n sock l (failed x ∷ l) [] _ refl refl (go x (failed x ∷ l))
      again false = (
        refl,
        (
          [],
          quiet sock l _ (append-nil _ ∙ append-nil _) (append-nil _ ∙ append-nil _),
          omega arith,
        ),
      )

  -- A datagram that was not sent back.
  unsent :
      (l l' : List Event) (bs : Bytes) (address : ℕ)
      → received sock l' ≡ received sock (was_received sock bs address ∷ l)
      → sent sock l' ≡ sent sock l
      → AllButOne sock l l'
  unsent l l' bs address r h = (
    (bs, address) ∷ [],
    record {
      answered_all = [];
      came_in = r ∙ ap (λ d. received sock l ++ d) (part_received-same sock bs address);
      went_out = h ∙ sym (append-nil _);
    },
    omega arith,
  )

  sent-Served :
      (more : List Answer) (e : ℕ) (bs text : Bytes) (address : ℕ) (l : List Event)
      → SetsErrno more
      → ((rest : List Answer) → length rest < length more → SetsErrno rest → Goes rest)
      → Served n sock l (
          then_run
            (sendto sock
              (bs, address)
              (record {
                answers = more;
                errno = e;
                log = receipt text address ∷ was_received sock bs address ∷ l;
              }))
            (after_send loop))
  unfolding sendto
  sent-Served [] e bs text address l s go =
      unsent l _ bs address (append-nil _) (append-nil _ ∙ append-nil _)
  sent-Served (fails x ∷ more) e bs text address l s go = (
    refl,
    unsent l _ bs address (append-nil _ ∙ append-nil _ ∙ append-nil _)
        (append-nil _ ∙ append-nil _ ∙ append-nil _ ∙ append-nil _),
  )
  sent-Served (gives k ∷ more) e bs text address l s go =
      Served-after n sock l _ ((bs, address) ∷ []) _
        (append-nil _
          ∙ append-nil _
          ∙ ap (λ d. received sock l ++ d) (part_received-same sock bs address))
        (ap (λ d. d ++ part_sent sock (was_sent sock bs address)) (append-nil _ ∙ append-nil _)
          ∙ ap (λ d. sent sock l ++ d) (part_sent-same sock bs address))
        (go more (omega arith) s e _)
  sent-Served (other ∷ more) e bs text address l s go =
      unsent l _ bs address (append-nil _) (append-nil _ ∙ append-nil _)

  delivered-Served :
      (more : List Answer) (e : ℕ) (bs : Bytes) (address : ℕ) (l : List Event)
      → length bs < buf_size
      → SetsErrno more
      → ((rest : List Answer) → length rest < length more → SetsErrno rest → Goes rest)
      → Served n sock l (
          after_recv loop sock
            (some (bs, address))
            (record { answers = more; errno = e; log = was_received sock bs address ∷ l }))
  delivered-Served more e bs address l fits s go =
      let (text, same) =
        after_recv-sendto loop sock bs address
          (record { answers = more; errno = e; log = was_received sock bs address ∷ l }) fits in
      rw same (sent-Served more e bs text address l s go)

  pub running-Served :
      (more : List Answer) (e : ℕ) (l : List Event)
      → SetsErrno more
      → ((rest : List Answer) → length rest < length more → SetsErrno rest → Goes rest)
      → Served n sock l
          (while_running loop sock true (record { answers = more; errno = e; log = l }))
  unfolding recvfrom
  running-Served [] e l s go = quiet_one sock l
  running-Served (fails x ∷ more) e l s go = refused-Served more x l s.0 (go more (omega arith) s.1)
  running-Served (delivers bs address ∷ more) e l s go =
      delivered-Served more e (take 4095 bs) address l (omega (arith, length-take 4095 bs)) s
        (λ rest less. go rest (omega arith))
  running-Served (other ∷ more) e l s go = quiet_one sock l
