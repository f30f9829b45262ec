-- ===== src/Transport/Resolve/Listing.antt =====
-- What resolve.c prints, address by address: nothing is carried from one to the next.
use operating_systems_and_ne.Base.{
  ℕ, ◌≡◌, refl, Bool, true, false, Option, none, some, List, [], ◌∷◌, inr, ap, ◌∙◌,
}
use operating_systems_and_ne.Os.{
  exit_failure, exit_success, Bytes, Event, printed, complained, World, Outcome, returns, exits,
  then_run, M, note,
}
use operating_systems_and_ne.Transport.Addresses.{Family, inet, inet6, other, Addrinfo, InetNtop}
use operating_systems_and_ne.Transport.Resolve.{Cursor, selected, converted, list_addresses, found}

-- An address in words, and its port.
abbrev pub Line : Type 0
Line = Bytes × ℕ

abbrev pub line_at : ℕ → Option Bytes → Option Line
line_at port none = none
line_at port (some addr) = some (addr, port)

-- The line of one address alone.
abbrev pub line_of : InetNtop → Addrinfo → Option Line
line_of inet_ntop rp = line_at rp.sin_port (inet_ntop rp.ai_family (some rp.sin_addr))

-- The lines up to the first address without one, and whether all have one.
abbrev pub lines : List (Option Line) → List Line
lines [] = []
lines (none ∷ more) = []
lines (some x ∷ more) = x ∷ lines more

abbrev pub all_some : List (Option Line) → Bool
all_some [] = true
all_some (none ∷ more) = false
all_some (some x ∷ more) = all_some more

abbrev pub map_lines : InetNtop → List Addrinfo → List (Option Line)
map_lines inet_ntop [] = []
map_lines inet_ntop (rp ∷ result) = line_of inet_ntop rp ∷ map_lines inet_ntop result

-- The log after the lines were printed.
abbrev pub shown : List Line → List Event → List Event
shown [] l = l
shown ((addr, port) ∷ more) l = shown more (printed "    %s:%d\n" (addr ∷ []) (port ∷ []) ∷ l)

-- How the program ends after it has printed what it can.
abbrev pub ended : Bool → World → Outcome ℕ
ended true w = returns exit_success w
ended false w = exits exit_failure (note (complained "inet_ntop") w)

-- `inet_ntop` knows no other family.
abbrev pub KnowsNoOther : InetNtop → Type 0
KnowsNoOther inet_ntop = (n : ℕ) (p : Option Bytes) → inet_ntop (other n) p ≡ none

-- What the variables hold from the address before does not matter.
selected-converted :
    (inet_ntop : InetNtop)
    → KnowsNoOther inet_ntop
    → (rp : Addrinfo) (family : Family) (c : Cursor) (rest : M (Unit {0}))
    → converted (selected rp family c).port rest (inet_ntop family (selected rp family c).addr_ptr)
      ≡ converted rp.sin_port rest (inet_ntop family (some rp.sin_addr))
selected-converted f unknown rp inet c rest = refl
selected-converted f unknown rp inet6 c rest = refl
selected-converted f unknown rp (other n) c rest =
    rw (unknown n c.addr_ptr, unknown n (some rp.sin_addr)) refl

-- The lines of a list of addresses, and then the end of the program.
abbrev pub Lists : InetNtop → List Addrinfo → World → Outcome (Unit {0}) → Type 0
Lists f result w o =
    then_run o (λ u. returns exit_success)
    ≡ ended (all_some (map_lines f result))
        (record w { log = shown (lines (map_lines f result)) w.log })

list_addresses-Lists :
    (inet_ntop : InetNtop)
    → KnowsNoOther inet_ntop
    → (result : List Addrinfo) (c : Cursor) (w : World)
    → Lists inet_ntop result w (list_addresses inet_ntop result c w)
unfolding list_addresses
list_addresses-Lists f unknown [] c w = refl
list_addresses-Lists f unknown (rp ∷ result) c w =
    let now = selected rp rp.ai_family c in
    let rest = list_addresses f result now in
    let same =
      ap (λ (m : M (Unit {0})). m w) (selected-converted f unknown rp rp.ai_family c rest) in
    ap (λ o. then_run o (λ u. returns exit_success)) same
    ∙ go (f rp.ai_family (some rp.sin_addr)) rest (list_addresses-Lists f unknown result now)
  where
    go :
        (o : Option Bytes) (rest : M (Unit {0}))
        → ((v : World) → Lists f result v (rest v))
        → then_run (converted rp.sin_port rest o w) (λ u. returns exit_success)
          ≡ ended
              (all_some (line_at rp.sin_port o ∷ map_lines f result))
              (record w { log = shown (lines (line_at rp.sin_port o ∷ map_lines f result)) w.log })
    go none rest ih = refl
    go (some addr) rest ih = ih (note (printed "    %s:%d\n" (addr ∷ []) (rp.sin_port ∷ [])) w)

-- resolve.c, once `getaddrinfo` has found addresses. The pointer and the port that the loop carries along
-- do not matter: the program prints for each address, in order, its own text and its own port, up to
-- the first address that `inet_ntop` does not take, where it exits with EXIT_FAILURE; if there is none
-- of them it returns EXIT_SUCCESS. Of `inet_ntop` it is assumed that it takes no other families than the
-- two that the loop knows.
pub resolve_lem :
    (inet_ntop : InetNtop)
    → KnowsNoOther inet_ntop
    → (hostname : Bytes) (result : List Addrinfo) (w : World)
    → found inet_ntop hostname (inr result) w
      ≡ ended (all_some (map_lines inet_ntop result)) (record w {
        log =
            shown
              (lines (map_lines inet_ntop result))
              (printed "Following addresses found for %s hostname:\n" (hostname ∷ []) [] ∷ w.log);
      })
resolve_lem f unknown hostname result w =
    list_addresses-Lists f unknown result (record { addr_ptr = none; port = 0 })
      (note (printed "Following addresses found for %s hostname:\n" (hostname ∷ []) []) w)
