-- ===== src/Base/Bits.antt =====
-- Facts about the bit operations at variables: the lowest bit of `&`, single-bit masks, and a check
-- of every value of a byte.
use Prim.Native.Nat.{min, digits, bit_and, bit_xor, bit_and-bitwise}
use operating_systems_and_ne.Base.Tests.{◌==◌, ==_iff, ltb, ltb→lt}
use Prim.Native.Nat.{ℕ, zero, suc, ◌+◌, ◌*◌, ◌/◌, ◌%◌, ◌^◌, ◌≤◌, ◌<◌}
use mathlib.Core.Path.{◌≡◌, refl, ap}
use mathlib.Core.Bool.{Bool, true, ◌&&◌}
use native.Mathlib.Omega.{arith}
use native.Mathlib.Nat.{pow-suc, div-div-eq-div-mul}

-- Whether a test holds at every number below `n`, by evaluation.
unfoldable pub holds_below : ℕ → (ℕ → Bool) → Bool
holds_below zero test = true
holds_below (suc n) test = test n && holds_below n test

pub holds_below-at :
    (n : ℕ) (test : ℕ → Bool) (x : ℕ) → holds_below n test ≡ true → x < n → test x ≡ true
unfolding holds_below
holds_below-at zero test x h l = absurd (omega arith)
holds_below-at (suc n) test x h l = ground (arith, holds_below-at n test x)

xor_table : holds_below 256 (λ a. holds_below 256 (λ b. bit_xor (bit_xor a b) b == a)) ≡ true
unfolding holds_below
xor_table = refl

-- Exclusive or by the same byte twice changes nothing.
pub xor-xor : (a b : ℕ) → a < 256 → b < 256 → bit_xor (bit_xor a b) b ≡ a
xor-xor a b la lb = (==_iff _ a).0 (
    holds_below-at 256 _ b
      (holds_below-at 256 (λ x. holds_below 256 (λ y. bit_xor (bit_xor x y) y == x)) a xor_table la)
      lb)

xor_range : holds_below 256 (λ a. holds_below 256 (λ b. ltb (bit_xor a b) 256)) ≡ true
unfolding holds_below
xor_range = refl

pub xor-lt : (a b : ℕ) → a < 256 → b < 256 → bit_xor a b < 256
xor-lt a b la lb = ltb→lt _ 256 (
    holds_below-at 256 _ b
      (holds_below-at 256 (λ x. holds_below 256 (λ y. ltb (bit_xor x y) 256)) a xor_range la) lb)

-- More fuel than the number has digits changes nothing.
abbrev and_fuel : ℕ → ℕ → ℕ → ℕ
and_fuel n a b = digits (λ y. zero) min n a b

and_fuel-enough : (n m a b : ℕ) → a ≤ n → a ≤ m → and_fuel n a b ≡ and_fuel m a b
and_fuel-enough zero zero zero b p q = refl
and_fuel-enough zero (suc m) zero b p q = refl
and_fuel-enough (suc n) zero zero b p q = refl
and_fuel-enough (suc n) (suc m) zero b p q = refl
and_fuel-enough (suc n) (suc m) (suc a) b p q =
    let half = and_fuel-enough n m (suc a / 2) (b / 2) (omega arith) (omega arith) in
    omega (arith, half)
and_fuel-enough zero m (suc a) b p q = absurd (omega arith)
and_fuel-enough n zero (suc a) b p q = absurd (omega arith)

-- The lowest bit of `&`, and the bits above it.
pub bit_and-halves : (a b : ℕ) → bit_and a b ≡ bit_and (a / 2) (b / 2) * 2 + min (a % 2) (b % 2)
bit_and-halves zero b = omega (arith, bit_and-bitwise 0 b, bit_and-bitwise 0 (b / 2))
bit_and-halves (suc a) b =
    let low = and_fuel-enough a (suc a / 2) (suc a / 2) (b / 2) (omega arith) (omega arith) in
    omega (arith, bit_and-bitwise (suc a) b, bit_and-bitwise (suc a / 2) (b / 2), low)

and_nothing : (n a : ℕ) → a ≤ n → bit_and a 0 ≡ 0
and_nothing n zero l = refl
and_nothing zero (suc a) l = absurd (omega arith)
and_nothing (suc n) (suc a) l =
    omega (arith, bit_and-halves (suc a) 0, and_nothing n (suc a / 2) (omega arith))

pub bit_and-zero : (a : ℕ) → bit_and a 0 ≡ 0
bit_and-zero a = and_nothing a a (omega arith)

-- `&` with a single bit tells whether that bit is set.
pub bit_and-bit : (k a : ℕ) → bit_and a (2 ^ k) ≡ a / 2 ^ k % 2 * 2 ^ k
bit_and-bit zero a = omega (arith, bit_and-halves a 1, bit_and-zero (a / 2))
bit_and-bit (suc k) a = rw twice (
    omega (
      arith,
      bit_and-halves a (2 * 2 ^ k),
      ap (λ t. bit_and (a / 2) t) half,
      bit_and-bit k (a / 2),
      ap (λ (t : ℕ). t % 2 * 2 ^ k) (div-div-eq-div-mul a 2 (2 ^ k)),
    ))
  where
    twice : 2 ^ suc k ≡ 2 * 2 ^ k
    twice = omega (arith, pow-suc 2 k)

    half : 2 * 2 ^ k / 2 ≡ 2 ^ k
    half = omega arith

-- The same with the bit on the left.
pub bit-bit_and : (k a : ℕ) → bit_and (2 ^ k) a ≡ a / 2 ^ k % 2 * 2 ^ k
bit-bit_and zero a = omega (arith, bit_and-halves 1 a, bit_and-bitwise 0 (a / 2))
bit-bit_and (suc k) a = rw twice (
    omega (
      arith,
      bit_and-halves (2 * 2 ^ k) a,
      ap (λ t. bit_and t (a / 2)) half,
      bit-bit_and k (a / 2),
      ap (λ (t : ℕ). t % 2 * 2 ^ k) (div-div-eq-div-mul a 2 (2 ^ k)),
    ))
  where
    twice : 2 ^ suc k ≡ 2 * 2 ^ k
    twice = omega (arith, pow-suc 2 k)

    half : 2 * 2 ^ k / 2 ≡ 2 ^ k
    half = omega arith
