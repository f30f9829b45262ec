-- ===== src/Transport/Tests.antt =====
-- Runs of the echo server and of the clients, and the theorems at these runs.
use operating_systems_and_ne.Base.{ℕ, none, List, inr, refl, some, ◌<◌, ◌≤◌, ◌≡◌, [], ◌∷◌, length}
use operating_systems_and_ne.Transport.Client.{tcp_talk, http_talk, request_of, request_size}
use operating_systems_and_ne.Transport.Client.Sending.{Sent}
use operating_systems_and_ne.Transport.Client.Enough.{tcp_talk_lem, http_talk_lem}
use operating_systems_and_ne.Transport.UdpServer
use operating_systems_and_ne.Transport.UdpServer.Datagrams.{SetsErrno, Served}
use operating_systems_and_ne.Transport.UdpServer.Enough.{rounds, udp_server_lem}
use operating_systems_and_ne.Transport.UdpClient
use operating_systems_and_ne.Transport.UdpClient.Talk.{Talked, udp_client_lem}
use operating_systems_and_ne.Transport.Addresses.{inet, other, Addrinfo, InetNtop}
use operating_systems_and_ne.Transport.Resolve.{found}
use operating_systems_and_ne.Transport.Resolve.Listing.{
  all_some, map_lines, lines, shown, ended, resolve_lem,
}
use operating_systems_and_ne.Os.Datagrams.{Datagram}
use operating_systems_and_ne.Os.Logs.{written_to}
use operating_systems_and_ne.Os.{
  Bytes, codes, exits, exit_failure, World, Answer, returns, exit_success, gives, brings, fails,
  delivers, printed,
}
use operating_systems_and_ne.Os.Fuel.{Fueled}
use operating_systems_and_ne.Transport.EchoServer.{handle_client, has_socket}
use operating_systems_and_ne.Transport.EchoServer.Serving.{Stops, server_lem}
use operating_systems_and_ne.Transport.EchoServer.Echo.{Echoed}
use operating_systems_and_ne.Transport.EchoServer.Enough.{handle_client_lem}

-- A read is interrupted, the next brings three bytes; a write takes one, the next is interrupted.
abbrev session : World
session = record {
  answers =
      gives 1
      ∷ fails 4
      ∷ gives 1
      ∷ brings (1 ∷ 2 ∷ 3 ∷ [])
      ∷ gives 1
      ∷ fails 4
      ∷ gives 2
      ∷ gives 1
      ∷ brings []
      ∷ [];
  errno = 0;
  log = [];
}

handle_client_lem_example :
    Echoed 5 session (handle_client 5 session)
    × Fueled (length session.answers) (handle_client 5 session)
handle_client_lem_example = handle_client_lem 5 session

-- The server takes two bytes of three, then the last one, and answers with one byte.
abbrev talk : World
talk = record {
  answers = gives 2 ∷ gives 1 ∷ gives 0 ∷ brings (65 ∷ []) ∷ brings [] ∷ [];
  errno = 0;
  log = [];
}

tcp_talk_lem_example :
    Sent 3 (1 ∷ 2 ∷ 3 ∷ []) talk (tcp_talk 3 (1 ∷ 2 ∷ 3 ∷ []) talk)
    × Fueled (length talk.answers) (tcp_talk 3 (1 ∷ 2 ∷ 3 ∷ []) talk)
tcp_talk_lem_example = tcp_talk_lem 3 (1 ∷ 2 ∷ 3 ∷ []) talk

abbrev request : Bytes
request = request_of (codes "/index.html") (codes "localhost")

http_talk_lem_example :
    (length request < request_size
      → Sent 3 request talk (http_talk 3 request talk)
        × Fueled (length talk.answers) (http_talk 3 request talk))
    × (request_size ≤ length request
        → (v : World) × (http_talk 3 request talk ≡ exits exit_failure v)
          × (written_to 3 v.log ≡ written_to 3 talk.log))
http_talk_lem_example = http_talk_lem 3 request talk

-- Two clients; the second one finds the server already stopping.
abbrev shift : World
shift = record {
  answers =
      gives 0
      ∷ gives 0
      ∷ gives 0
      ∷ gives 1
      ∷ gives 5
      ∷ gives 1
      ∷ brings (7 ∷ [])
      ∷ gives 1
      ∷ gives 1
      ∷ brings []
      ∷ gives 1
      ∷ gives 6
      ∷ gives 0
      ∷ gives 0
      ∷ [];
  errno = 0;
  log = [];
}

server_lem_example : Stops (length shift.answers) 3 (has_socket 8080 (some 3) shift)
server_lem_example = server_lem 8080 3 shift

-- A call is interrupted, a datagram of address 9 is sent back, one of address 8 is not.
abbrev exchange : World
exchange = record {
  answers =
      gives 0
      ∷ gives 0
      ∷ gives 1
      ∷ fails 4
      ∷ gives 1
      ∷ delivers (1 ∷ 0 ∷ 2 ∷ []) 9
      ∷ gives 3
      ∷ gives 1
      ∷ delivers [] 8
      ∷ fails 11
      ∷ [];
  errno = 0;
  log = [];
}

exchange-SetsErrno : SetsErrno exchange.answers
exchange-SetsErrno = (λ e. cc, (λ e. cc, tt))

udp_server_lem_example :
    Served (length exchange.answers) 3 exchange.log (UdpServer.has_socket 7 (some 3) exchange)
    × ((ds : List Datagram)
        → (v : World) × (UdpServer.has_socket 7
              (some 3)
              (record exchange { answers = gives 0 ∷ gives 0 ∷ rounds ds })
            ≡ returns exit_success v))
udp_server_lem_example = udp_server_lem 7 3 exchange exchange-SetsErrno

-- Text and bytes of an address are the same, for the two families of the program.
abbrev same_ntop : InetNtop
same_ntop (other n) p = none
same_ntop family p = p

abbrev localhost : List Addrinfo
localhost =
    record { ai_family = inet; sin_addr = 127 ∷ 0 ∷ 0 ∷ 1 ∷ []; sin_port = 80 }
    ∷ record { ai_family = other 1; sin_addr = []; sin_port = 0 }
    ∷ []

resolve_lem_example :
    found same_ntop (codes "localhost") (inr localhost) talk
    ≡ ended (all_some (map_lines same_ntop localhost)) (record talk {
      log = shown (lines (map_lines same_ntop localhost)) (
          printed "Following addresses found for %s hostname:\n" (codes "localhost" ∷ []) []
          ∷ talk.log);
    })
resolve_lem_example = resolve_lem same_ntop (λ n p. refl) (codes "localhost") localhost talk

-- The message is sent, and an answer comes back.
abbrev answer : List Answer
answer = gives 2 ∷ delivers (65 ∷ 66 ∷ []) 9 ∷ []

udp_client_lem_example :
    Talked (65 ∷ 66 ∷ []) 9 3 [] (
      UdpClient.has_socket
        (65 ∷ 66 ∷ [])
        9
        (some 3)
        (record { answers = answer; errno = 0; log = [] }))
    × ((k from : ℕ) (bs : Bytes)
        → (w : World) × (UdpClient.has_socket
              (65 ∷ 66 ∷ [])
              9
              (some 3)
              (record { answers = gives k ∷ delivers bs from ∷ answer; errno = 0; log = [] })
            ≡ returns exit_success w))
udp_client_lem_example = udp_client_lem (65 ∷ 66 ∷ []) 9 3 answer 0 []
