-- ===== src/Os/Datagrams.antt =====
-- The calls on datagrams, and what a log says of them.
use operating_systems_and_ne.Base.{ℕ, Option, some, List, [], ◌∷◌, ◌++◌, take, ◌==◌, if◌then◌else◌}
use operating_systems_and_ne.Os.{
  Bytes, Fd, Answer, fails, gives, delivers, Event, was_received, was_sent, returns, waits, M, note,
  ask, failing,
}

-- A datagram and the address of the other side.
abbrev pub Datagram : Type 0
Datagram = Bytes × ℕ

abbrev pub recvfrom_answer : Fd → ℕ → Answer → M (Option Datagram)
recvfrom_answer fd n (fails e) w = failing e w
recvfrom_answer fd n (delivers bs address) w =
    returns (some (take n bs, address)) (note (was_received fd (take n bs) address) w)
recvfrom_answer fd n a w = waits w

-- `recvfrom(fd, buf, n, 0, &address, &len)`: what does not fit into `buf` is lost.
unfoldable pub recvfrom : Fd → ℕ → M (Option Datagram)
recvfrom fd n = ask (recvfrom_answer fd n)

abbrev pub sendto_answer : Fd → Datagram → Answer → M (Option ℕ)
sendto_answer fd d (fails e) w = failing e w
sendto_answer fd (bs, address) (gives k) w = returns (some k) (note (was_sent fd bs address) w)
sendto_answer fd d a w = waits w

-- `sendto(fd, buf, len, 0, &address, sizeof(address))`: a datagram is sent whole or not at all.
unfoldable pub sendto : Fd → Datagram → M (Option ℕ)
sendto fd d = ask (sendto_answer fd d)

abbrev pub part_received : Fd → Event → List Datagram
part_received fd (was_received g bs address) = if g == fd then (bs, address) ∷ [] else []
part_received fd e = []

abbrev pub part_sent : Fd → Event → List Datagram
part_sent fd (was_sent g bs address) = if g == fd then (bs, address) ∷ [] else []
part_sent fd e = []

-- All that came in at a socket, in order.
abbrev pub received : Fd → List Event → List Datagram
received fd [] = []
received fd (e ∷ log) = received fd log ++ part_received fd e

-- All that went out of a socket, in order.
abbrev pub sent : Fd → List Event → List Datagram
sent fd [] = []
sent fd (e ∷ log) = sent fd log ++ part_sent fd e
