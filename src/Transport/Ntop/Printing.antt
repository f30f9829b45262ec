-- ===== src/Transport/Ntop/Printing.antt =====
-- What ntop.c prints.
use operating_systems_and_ne.Base.{
  ℕ, ◌≡◌, ◌⊎◌, inl, inr, refl, some, List, [], ◌∷◌, ◌++◌, drop, length,
}
use operating_systems_and_ne.Os.{
  exit_failure, Bytes, Event, printed, complained, warned, World, Outcome, returns, exits, note,
  codes,
}
use operating_systems_and_ne.Transport.Addresses.{
  Family, inet, inet6, other, Parsed, address, not_in_format, unsupported, InetPton, InetNtop,
}
use operating_systems_and_ne.Transport.Ntop.{
  same_text, addr_len, print_bytes, converted, parsed, main,
}

-- `inet_pton` writes as many bytes as an address of the family has, and `inet_ntop` reads no more of
-- them.
pub record IsDocumented (inet_pton : InetPton) (inet_ntop : InetNtop) : Type 0 where
  pub writes :
      (domain : Family) (text bs : Bytes)
      → inet_pton domain text ≡ address bs
      → addr_len domain ≡ some (length bs)
  pub reads :
      (domain : Family) (bs rest : Bytes)
      → addr_len domain ≡ some (length bs)
      → inet_ntop domain (some (bs ++ rest)) ≡ inet_ntop domain (some bs)

-- The log after the bytes were printed.
abbrev pub shown : Bytes → List Event → List Event
shown [] l = l
shown (b ∷ bs) l = shown bs (printed "%02x" [] (b ∷ []) ∷ l)

print_bytes-shown :
    (bs rest : Bytes) (w : World)
    → print_bytes (length bs) (bs ++ rest) w ≡ returns tt (record w { log = shown bs w.log })
unfolding print_bytes
print_bytes-shown [] rest w = refl
print_bytes-shown (b ∷ bs) rest w = print_bytes-shown bs rest (note (printed "%02x" [] (b ∷ [])) w)

-- How the program ends, by the result of `inet_pton`.
abbrev pub ended : InetNtop → Family → Parsed → World → Outcome ℕ
ended inet_ntop domain not_in_format w =
    exits exit_failure (note (warned "Not in presentation format" [] []) w)
ended inet_ntop domain unsupported w = exits exit_failure (note (complained "inet_pton") w)
ended inet_ntop domain (address bs) w =
    converted (inet_ntop domain (some bs)) (record w { log = printed "\n" [] [] ∷ shown bs w.log })

module _ {inet_pton : InetPton} {inet_ntop : InetNtop} (doc : IsDocumented inet_pton inet_ntop)
    (stack : Bytes) where
  parsed-ended :
      (domain : Family) (text : Bytes) (r : Parsed) (w : World)
      → inet_pton domain text ≡ r
      → parsed inet_pton inet_ntop stack domain r w ≡ ended inet_ntop domain r w
  parsed-ended domain text not_in_format w e = refl
  parsed-ended domain text unsupported w e = refl
  parsed-ended domain text (address bs) w e =
      let size = doc.writes domain text bs e in
      rw
        (
          size,
          print_bytes-shown bs (drop (length bs) stack) w,
          doc.reads domain bs (drop (length bs) stack) size,
        )
        refl

-- The word for a family on the command line.
abbrev pub word : Family → Bytes
word inet6 = codes "i6"
word domain = codes "i4"

-- ntop.c with the family `i4` or `i6` and a text, if `inet_pton` and `inet_ntop` do what is documented.
-- A text that is no address ends it with EXIT_FAILURE. Otherwise it prints exactly the bytes of the
-- address in order, none that was in the array before, and then what `inet_ntop` makes of them, and
-- exits with EXIT_SUCCESS, or with EXIT_FAILURE if that fails.
pub ntop_lem :
    {inet_pton : InetPton} {inet_ntop : InetNtop}
    → IsDocumented inet_pton inet_ntop
    → (stack : Bytes) (domain : Family) (name text : Bytes) (w : World)
    → (domain ≡ inet) ⊎ (domain ≡ inet6)
    → main inet_pton inet_ntop stack (name ∷ word domain ∷ text ∷ []) w
      ≡ ended inet_ntop domain (inet_pton domain text) w
unfolding main same_text
ntop_lem {inet_pton} doc stack inet name text w known =
    parsed-ended doc stack inet text (inet_pton inet text) w refl
ntop_lem {inet_pton} doc stack inet6 name text w known =
    parsed-ended doc stack inet6 text (inet_pton inet6 text) w refl
ntop_lem doc stack (other n) name text w (inl e) = absurd (cc e)
ntop_lem doc stack (other n) name text w (inr e) = absurd (cc e)
