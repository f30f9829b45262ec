-- ===== src/Filesystem/Crc/Detection.antt =====
-- What the check sum of crc8.c detects, and that it does not depend on how a file is cut.
use Prim.Native.Nat.{bit_xor}
use operating_systems_and_ne.Base.{
  ℕ, zero, suc, ◌<◌, ◌%◌, ◌≡◌, ◌≢◌, refl, true, [], ◌∷◌, ◌++◌, arith, ◌==◌, if◌then◌else◌, ◌+◌, ◌/◌,
  ==_iff, ◌∙◌, sym, ap,
}
use operating_systems_and_ne.Base.Bits.{holds_below, holds_below-at, xor-xor, xor-lt}
use operating_systems_and_ne.Os.{Bytes}
use operating_systems_and_ne.Filesystem.Crc.{shift_bit, shift_bits, crc8}

abbrev pub IsByte : ℕ → Type 0
IsByte b = b < 256

abbrev pub AllBytes : Bytes → Type 0
AllBytes [] = Unit
AllBytes (b ∷ bs) = IsByte b × AllBytes bs

-- The check value of the source's comment, and that of an empty block.
check_value : crc8 (b'1' ∷ b'2' ∷ b'3' ∷ b'4' ∷ b'5' ∷ b'6' ∷ b'7' ∷ b'8' ∷ b'9' ∷ []) 0xff ≡ 0xf7
unfolding crc8 shift_bits shift_bit
check_value = refl

-- Undoes `shift_bit`: the polynomial is odd, so the lowest bit tells what was shifted out.
abbrev unshift_bit : ℕ → ℕ
unshift_bit c = if c % 2 == 0 then c / 2 else bit_xor c 0x31 / 2 + 128

unshift_table : holds_below 256 (λ c. unshift_bit (shift_bit c) == c) ≡ true
unfolding holds_below shift_bit
unshift_table = refl

shift_bit-lt : (c : ℕ) → IsByte (shift_bit c)
unfolding shift_bit
shift_bit-lt c = ground arith

shift_bit-injective : (a b : ℕ) → IsByte a → IsByte b → shift_bit a ≡ shift_bit b → a ≡ b
shift_bit-injective a b la lb e =
    sym ((==_iff _ a).0 (holds_below-at 256 _ a unshift_table la))
    ∙ ap unshift_bit e
    ∙ (==_iff _ b).0 (holds_below-at 256 _ b unshift_table lb)

shift_bits-lt : (i c : ℕ) → IsByte c → IsByte (shift_bits i c)
unfolding shift_bits
shift_bits-lt zero c l = l
shift_bits-lt (suc i) c l = shift_bits-lt i (shift_bit c) (shift_bit-lt c)

shift_bits-injective : (i a b : ℕ) → IsByte a → IsByte b → shift_bits i a ≡ shift_bits i b → a ≡ b
unfolding shift_bits
shift_bits-injective zero a b la lb e = e
shift_bits-injective (suc i) a b la lb e =
    shift_bit-injective a b la lb
      (shift_bits-injective i (shift_bit a) (shift_bit b) (shift_bit-lt a) (shift_bit-lt b) e)

-- Every sum is a byte.
pub crc8-lt : (bs : Bytes) (c : ℕ) → IsByte c → IsByte (crc8 bs c)
unfolding crc8 shift_bits
crc8-lt [] c l = l
crc8-lt (b ∷ bs) c l = crc8-lt bs _ (shift_bits-lt 7 _ (shift_bit-lt (bit_xor c b)))

-- The sum over a block can be taken in two pieces, with the sum of the first as the start of the
-- second.
pub crc8-append : (xs ys : Bytes) (c : ℕ) → crc8 (xs ++ ys) c ≡ crc8 ys (crc8 xs c)
unfolding crc8
crc8-append [] ys c = refl
crc8-append (x ∷ xs) ys c = crc8-append xs ys _

crc8-injective :
    (bs : Bytes) (c d : ℕ) → AllBytes bs → IsByte c → IsByte d → crc8 bs c ≡ crc8 bs d → c ≡ d
unfolding crc8
crc8-injective [] c d l lc ld e = e
crc8-injective (b ∷ bs) c d l lc ld e =
    let lc' = xor-lt c b lc l.0 in
    let ld' = xor-lt d b ld l.0 in
    let rest = crc8-injective bs _ _ l.1 (shift_bits-lt 8 _ lc') (shift_bits-lt 8 _ ld') e in
    let same = shift_bits-injective 8 _ _ lc' ld' rest in
    sym (xor-xor c b lc l.0) ∙ ap (λ x. bit_xor x b) same ∙ xor-xor d b ld l.0

xor_comm_table : holds_below 256 (λ a. holds_below 256 (λ b. bit_xor a b == bit_xor b a)) ≡ true
unfolding holds_below
xor_comm_table = refl

xor_comm : (a b : ℕ) → IsByte a → IsByte b → bit_xor a b ≡ bit_xor b a
xor_comm a b la lb = (==_iff _ _).0 (
    holds_below-at 256 _ b
      (holds_below-at 256 (λ x. holds_below 256 (λ y. bit_xor x y == bit_xor y x)) a xor_comm_table
        la)
      lb)

-- The sum detects every error within one byte: two blocks that differ in one byte and are the
-- same before and after it have different sums, from every start value.
pub one_byte_detected :
    (before after : Bytes) (a b c : ℕ)
    → AllBytes after
    → IsByte a
    → IsByte b
    → IsByte c
    → a ≢ b
    → crc8 (before ++ (a ∷ after)) c ≢ crc8 (before ++ (b ∷ after)) c
unfolding crc8
one_byte_detected before after a b c ls la lb lc ne e =
    ne (sym (back a la) ∙ ap (λ x. bit_xor x s) turned ∙ back b lb)
  where
    s : ℕ
    s = crc8 before c

    ls' : IsByte s
    ls' = crc8-lt before c lc

    back : (x : ℕ) → IsByte x → bit_xor (bit_xor x s) s ≡ x
    back x lx = xor-xor x s lx ls'

    same : bit_xor s a ≡ bit_xor s b
    same = shift_bits-injective 8 _ _ (xor-lt s a ls' la) (xor-lt s b ls' lb) (
        crc8-injective after _ _ ls (shift_bits-lt 8 _ (xor-lt s a ls' la))
          (shift_bits-lt 8 _ (xor-lt s b ls' lb))
          (sym (crc8-append before (a ∷ after) c) ∙ e ∙ crc8-append before (b ∷ after) c))

    turned : bit_xor a s ≡ bit_xor b s
    turned = xor_comm a s la ls' ∙ same ∙ xor_comm s b ls' lb
