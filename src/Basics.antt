-- ===== src/Basics.antt =====
-- The programs on the C language that count their input: wc.c and dc.c. The input is the list of
-- the characters that `getchar` gives before EOF. A counter is an `int`: to count past its
-- greatest value is undefined, which is `none`. wc.c and dc.c have U+2032 around their character
-- constants and broken bars for an or, and do not compile; they are read as ' and ||.
pub mod WordCount
pub mod DigitCount
mod Tests
use operating_systems_and_ne.Base.{
  ℕ, suc, ◌==◌, ◌-◌, Bool, true, false, ◌&&◌, ◌||◌, ◌<◌, ◌≡◌, arith, Option, none, some, List, [],
  ◌∷◌, leb, if◌then◌else◌, update,
}
use operating_systems_and_ne.Os.{int_max}

infixl 5 ◌>>=◌
abbrev ◌>>=◌ {ℓ} : {A B : Type ℓ} → Option A → (A → Option B) → Option B
none >>= f = none
some a >>= f = f a

-- `++n`
unfoldable pub increment : ℕ → Option ℕ
increment n = if n == int_max then none else some (suc n)

pub increment_lem : (n : ℕ) → n < int_max → increment n ≡ some (suc n)
unfolding increment
increment_lem n h = ground arith

abbrev pub increment_if : Bool → ℕ → Option ℕ
increment_if true n = increment n
increment_if false n = some n

abbrev pub newline : ℕ
newline = 10

unfoldable pub is_white : ℕ → Bool
is_white c = c == 32 || c == newline || c == 9

-- `state` of wc.c
pub data State : Type 0 where
  inside outside : State

-- The variables of `main` in wc.c.
pub record Counts : Type 0 where
  pub state : State
  pub nl : ℕ
  pub nw : ℕ
  pub nc : ℕ

abbrev pub is_outside : State → Bool
is_outside State.inside = false
is_outside State.outside = true

-- The body of the loop.
pub count : Counts → ℕ → Option Counts
count s c = do
  nc ← increment s.nc
  nl ← increment_if (c == newline) s.nl
  nw ← (if is_white c then some s.nw else increment_if (is_outside s.state) s.nw)
  some (record {
    state = if is_white c then State.outside else State.inside;
    nl = nl;
    nw = nw;
    nc = nc;
  })

pub count_all : Counts → List ℕ → Option Counts
count_all s [] = some s
count_all s (c ∷ cs) = do t ← count s c; count_all t cs

abbrev pub wc : List ℕ → Option Counts
wc cs = count_all (record { state = State.outside; nl = 0; nw = 0; nc = 0 }) cs

-- The variables of `main` in dc.c.
pub record Digits : Type 0 where
  pub ndigit : ℕ → ℕ
  pub nwhite : ℕ
  pub nother : ℕ

abbrev pub is_digit : ℕ → Bool
is_digit c = leb 48 c && leb c 57

-- The body of the loop.
pub classify : Digits → ℕ → Option Digits
classify s c =
    if is_digit c
    then (do
      n ← increment (s.ndigit (c - 48))
      some (record s { ndigit = update s.ndigit (c - 48) n }))
    else if is_white c
    then (do n ← increment s.nwhite; some (record s { nwhite = n }))
    else (do n ← increment s.nother; some (record s { nother = n }))

pub classify_all : Digits → List ℕ → Option Digits
classify_all s [] = some s
classify_all s (c ∷ cs) = do t ← classify s c; classify_all t cs

abbrev pub dc : List ℕ → Option Digits
dc cs = classify_all (record { ndigit = λ _. 0; nwhite = 0; nother = 0 }) cs
