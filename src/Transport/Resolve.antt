-- ===== src/Transport/Resolve.antt =====
-- resolve.c: prints the addresses of a host. The loop keeps a pointer and a port from one address to the
-- next, and sets them for the two families that it knows.
pub mod Listing
use operating_systems_and_ne.Base.{ℕ, Option, none, some, List, [], ◌∷◌, ◌⊎◌, inl, inr}
use operating_systems_and_ne.Os.{
  exit_failure, exit_success, Bytes, M, pure, exit, ◌>>=◌, ◌>>◌, perror, printf,
}
use operating_systems_and_ne.Os.Process.{fprintf_stderr}
use operating_systems_and_ne.Transport.Addresses.{
  Family, inet, inet6, other, Addrinfo, InetNtop, Getaddrinfo,
}

-- The local variables `addr_ptr` and `port`.
pub record Cursor : Type 0 where
  pub addr_ptr : Option Bytes
  pub port : ℕ

-- The `switch` over the family.
abbrev pub selected : Addrinfo → Family → Cursor → Cursor
selected rp inet c = record { addr_ptr = some rp.sin_addr; port = rp.sin_port }
selected rp inet6 c = record { addr_ptr = some rp.sin_addr; port = rp.sin_port }
selected rp (other family) c = c

abbrev pub converted : ℕ → M (Unit {0}) → Option Bytes → M (Unit {0})
converted port rest none = do perror "inet_ntop"; exit exit_failure
converted port rest (some addr) = do printf "    %s:%d\n" (addr ∷ []) (port ∷ []); rest

module _ (inet_ntop : InetNtop) where
  pub list_addresses : List Addrinfo → Cursor → M (Unit {0})
  list_addresses [] c = pure tt
  list_addresses (rp ∷ result) c =
      let now = selected rp rp.ai_family c in
      let rest = list_addresses result now in
      converted now.port rest (inet_ntop rp.ai_family now.addr_ptr)

  abbrev pub found : Bytes → ℕ ⊎ List Addrinfo → M ℕ
  found hostname (inl rv) = do fprintf_stderr "getaddrinfo: %s\n" [] (rv ∷ []); exit exit_failure
  found hostname (inr result) = do
    printf "Following addresses found for %s hostname:\n" (hostname ∷ []) []
    list_addresses result (record { addr_ptr = none; port = 0 })
    pure exit_success

  pub main : Getaddrinfo → List Bytes → M ℕ
  main getaddrinfo (name ∷ hostname ∷ []) = found hostname (getaddrinfo hostname none)
  main getaddrinfo (name ∷ hostname ∷ servname ∷ more) =
      found hostname (getaddrinfo hostname (some servname))
  main getaddrinfo argv = do printf "Usage: %s <hostname> [servname]\n" argv []; exit exit_failure
