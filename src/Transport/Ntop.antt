-- ===== src/Transport/Ntop.antt =====
-- ntop.c: prints an address byte by byte and as a text.
pub mod Printing
use operating_systems_and_ne.Base.{
  ℕ, zero, suc, Bool, true, false, ◌&&◌, Option, none, some, List, [], ◌∷◌, ◌++◌, drop, length,
  ◌==◌, if◌then◌else◌,
}
use operating_systems_and_ne.Os.{
  exit_failure, exit_success, Bytes, undefined, M, pure, exit, ◌>>=◌, ◌>>◌, perror, printf, codes,
}
use operating_systems_and_ne.Os.Process.{fprintf_stderr}
use operating_systems_and_ne.Transport.Addresses.{
  Family, inet, inet6, other, Parsed, address, not_in_format, unsupported, InetPton, InetNtop,
}

-- `strcmp(a, b) == 0`
pub same_text : Bytes → Bytes → Bool
same_text [] [] = true
same_text (a ∷ as_left) (b ∷ bs) = a == b && same_text as_left bs
same_text a b = false

-- `sizeof(struct in6_addr)`
abbrev pub in6_addr_size : ℕ
in6_addr_size = 16

-- The `switch` over the domain.
abbrev pub addr_len : Family → Option ℕ
addr_len inet = some 4
addr_len inet6 = some in6_addr_size
addr_len (other family) = none

-- The first bytes of `buf`; beyond its end there is nothing to read.
pub print_bytes : ℕ → Bytes → M (Unit {0})
print_bytes zero buf = pure tt
print_bytes (suc left) [] = undefined
print_bytes (suc left) (b ∷ buf) = do printf "%02x" [] (b ∷ []); print_bytes left buf

abbrev pub converted : Option Bytes → M ℕ
converted none = do perror "inet_ntop"; exit exit_failure
converted (some str) = do printf "%s\n" (str ∷ []) []; exit exit_success

-- `inet_pton` and `inet_ntop` are the C library's. `stack` is what `buf` holds before; it has
-- `in6_addr_size` bytes.
module _ (inet_pton : InetPton) (inet_ntop : InetNtop) (stack : Bytes) where
  abbrev pub sized : Family → Bytes → Option ℕ → M ℕ
  sized domain buf none = do
    fprintf_stderr "Unsupported network protocol: %d\n" [] []
    exit exit_failure
  sized domain buf (some len) = do
    print_bytes len buf
    printf "\n" [] []
    converted (inet_ntop domain (some buf))

  abbrev pub parsed : Family → Parsed → M ℕ
  parsed domain not_in_format = do
    fprintf_stderr "Not in presentation format" [] []
    exit exit_failure
  parsed domain unsupported = do perror "inet_pton"; exit exit_failure
  parsed domain (address bs) = sized domain (bs ++ drop (length bs) stack) (addr_len domain)

  pub main : List Bytes → M ℕ
  main (name ∷ protocol ∷ text ∷ []) =
      if same_text protocol (codes "i4")
      then parsed inet (inet_pton inet text)
      else if same_text protocol (codes "i6")
      then parsed inet6 (inet_pton inet6 text)
      else do
        fprintf_stderr "Unsupported network protocol: %s\n" (protocol ∷ []) []
        exit exit_failure
  main argv = do fprintf_stderr "Usage: %s {i4|i6} string\n" argv []; exit exit_failure
