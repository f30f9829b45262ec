-- ===== src/Transport/Addresses.antt =====
-- What the programs use of <arpa/inet.h> and <netdb.h>, which are not part of the repository: the
-- functions themselves are parameters.
use operating_systems_and_ne.Base.{ℕ, Option, List, ◌⊎◌}
use operating_systems_and_ne.Os.{Bytes}

-- AF_INET, AF_INET6, and any other family.
pub data Family : Type 0 where
  inet inet6 : Family
  other : ℕ → Family

-- `inet_pton` gives 1 and the bytes of the address, 0 for a text that is no address, and -1 for a family
-- that it does not know.
pub data Parsed : Type 0 where
  address : Bytes → Parsed
  not_in_format unsupported : Parsed

abbrev pub InetPton : Type 0
InetPton = Family → Bytes → Parsed

-- `inet_ntop`, which gives NULL where it fails. The bytes at a pointer; `none` is NULL.
abbrev pub InetNtop : Type 0
InetNtop = Family → Option Bytes → Option Bytes

-- `struct addrinfo` with the socket address that it points to.
pub record Addrinfo : Type 0 where
  pub ai_family : Family
  pub sin_addr : Bytes
  pub sin_port : ℕ

-- `getaddrinfo`: an error code, or the addresses of a host and a service.
abbrev pub Getaddrinfo : Type 0
Getaddrinfo = Bytes → Option Bytes → ℕ ⊎ List Addrinfo
