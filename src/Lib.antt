-- ===== src/Lib.antt =====
-- Models and theorems for the programs of a course on operating systems and networks.
--
-- The repository is a collection of small C programs, a directory for each part of the course. They
-- share no code; what they share is how they use the kernel, and this library is arranged by that.
--
-- Programs with threads (10_multithreading), in Multithreading. A state is a record of what the
-- threads share and of where each thread stands; `step` lets one thread do its next call or its next
-- access to a shared variable and is `none` where the thread has to wait. A schedule is any sequence
-- of steps, and the invariants are over all of them. `err` or a `Choice` is what the outside decides
-- at a step: the result of a call, and the values of `rand`.
--   Multithreading.Errors    exit_on_error and a default mutex, which all of these programs use
--   Multithreading.Main      what `main` does beside its threads, for all of them: a list of calls, each
--                            checked, where `pthread_join` fails or waits. A program is a record of what its
--                            threads do and promise; Order, Progress and Printing show for any such
--                            program what the order of the calls guarantees
--   Multithreading.Dining    dining_philosophers.c, dining_philosophers_sem.c and
--                            dining_philosophers_sem_macosx.c: thread_start as `move`, main up to
--                            the threads as `start`, and with its calls in Dining.Main
--   Multithreading.Bank      deadlock.c and ordered_lock.c: thread_start as `move`, exec_transaction
--                            as `transact`, its choice of `fst` and `snd` as `lock_order`, the calls
--                            of main in Bank.Main. Bank.Ledger is what a bank promises with no
--                            threads and no mutexes, Bank.Logs the transfers that a run drew and
--                            posted, and Bank.Refine that both programs keep the ledger of those
--   Multithreading.Tickets   mutex.c, Multithreading.Race race.c and Multithreading.Thread thread.c:
--                            thread_start as `move`, main in their modules Main
-- Their children prove what every step keeps (Invariant, Reachable) and what follows from it
-- (Safety, Progress, Termination, Refine, Outcomes, Negative). A module Tests has runs, and the theorems
-- at these runs.
--
-- Programs that call the kernel (03_processes_src, 05_filesystem_src, 06_ipc_src, 08_transport_proto,
-- 09_application_proto), over Os. A process runs in the monad `M` against a list of answers, one for
-- each call that the kernel decides, and logs what it did: what a call has to give is a constructor
-- of `Answer`, what a run did is a list of `Event`, how it ends is an `Outcome`. A theorem on all
-- worlds is therefore one on all behaviours of the kernel, every error included. A list that is too
-- short, or an answer of the wrong kind, makes the process wait.
--   Os.Calls, Os.Logs        the outcomes of read and write, and what a log says of a descriptor
--   Os.Process               fork, exec, wait, pipe, dup2, mkfifo, unlink, shutdown
--   Os.Datagrams             recvfrom and sendto
--   Os.Fuel                  why the fuel of a loop is enough
--   Os.Kept                  runs that open no file and close none
--   Filesystem.Copy          05_filesystem_src/copy.c: copy (its loops are `copy_loop` and
--                            `write_loop`) and main
--   Filesystem.Crc           05_filesystem_src/crc8.c: crc8, filecrc8 and main
--   Filesystem.ReadFile      05_filesystem_src/read.c: readfile and main
--   Filesystem.FileInfo      05_filesystem_src/finfo.c: filetype, fileperm and main
--   Filesystem.Redirect      05_filesystem_src/dup2.c: redirect_stdout_and_run and main
--   Filesystem.Directory     05_filesystem_src/ls.c and creat.c
--   Processes.ForkWait       03_processes_src/fork_wait.c
--   Ipc.Children             wait_report of the three programs below
--   Ipc.CountPrimes          06_ipc_src/count_primes.c: is_prime, run_worker, get_result and main;
--                            Prime, Partition and Totals are the steps to its total, Deliveries
--                            and Failures are what becomes of it when workers fail
--   Ipc.CountFiles           06_ipc_src/count_files.c and count_files_fifo.c
--   Ipc.Kill                 06_ipc_src/kill.c, Ipc.Signal signal.c and Ipc.Center center.c
--   Transport.EchoServer     08_transport_proto/tcp_server.c: handle_client and main
--   Transport.Client         08_transport_proto/tcp_client.c and 09_application_proto/httpget.c, whose
--                            loops that send and receive are the same
--   Transport.UdpServer      08_transport_proto/udp_server.c, and Transport.UdpClient udp_client.c
--   Transport.Addresses      the library's functions on addresses, which are parameters of
--   Transport.Ntop           08_transport_proto/ntop.c and
--   Transport.Resolve        09_application_proto/resolve.c
-- A function of a program that has branches after a call is a definition for the call and one by
-- clauses for its result, named for the situation (`forked`, `opened`, `after_read`).
--
-- Programs that count their input (02_c_src), in Basics: wc.c and dc.c as folds over the input.
--
-- Base has what the components share: lists measured by native numbers, families indexed by a
-- thread, integers, bits.
--
-- Bounds. An `int` that the program adds to is checked: an overflow is `undefined` or `none`. The
-- length of the message of tcp_client.c and httpget.c, which it only counts down, has no bound. A port
-- that `atoi` gives is passed on as the 32 bits of the `int`. A byte
-- of crc8 is cut with `% 2 ^ 8`, a `size_t` with `% 2 ^ 64`. A loop that makes a call in each round
-- runs on fuel, one more than there are answers left (`with_fuel`). Since each round uses up an
-- answer that is enough, and it is part of the theorem of each such loop that `no_fuel` is not its
-- outcome. All other loops are structural.
--
-- Not modelled. Messages of the programs with threads; addresses in sockaddr structures, which
-- are numbers or bytes here; the hints of getaddrinfo; the text of ctime and strerror. A failing
-- close, whose result no program looks at. The C library is the standard's: mutexes are not
-- recursive, unlock frees; atoi, rand, inet_pton, inet_ntop and getaddrinfo are parameters. The
-- programs on memory (04_memory_management_src) print what the system gives; exec.c and
-- fork_execvp.c are one call of exec. fillfile.c and longest_str.c are empty, power.c, f2c.c, swap.c
-- and hello.c are exercises on C.
pub mod Base
pub mod Basics
pub mod Filesystem
pub mod Ipc
pub mod Multithreading
pub mod Os
pub mod Processes
pub mod Transport
