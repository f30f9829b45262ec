-- ===== src/Ipc/CountPrimes/Prime.antt =====
-- `is_prime` finds the prime numbers.
use operating_systems_and_ne.Base.{
  ℕ, zero, suc, ◌+◌, ◌-◌, ◌*◌, ◌/◌, ◌%◌, ◌≤◌, ◌<◌, ◌≡◌, ◌↔◌, ◌⊎◌, inl, inr, refl, true, arith,
  ℕ_discrete, ap, sym, ◌∙◌,
}
use native.Mathlib.Nat.{div-add-mod, mul-mod_right}
use operating_systems_and_ne.Ipc.CountPrimes.{is_prime, has_no_divisor}

-- A prime number is at least 2 and has no factors but itself and 1.
abbrev pub IsPrime : ℕ → Type 0
IsPrime n = (2 ≤ n) × ((a b : ℕ) → a * b ≡ n → (a ≡ 1) ⊎ (b ≡ 1))

-- On `true` no number from `i` to before `i + steps` divides `n`.
has_no_divisor_sound :
    (steps n i d : ℕ) → has_no_divisor steps n i ≡ true → i ≤ d → d < i + steps → (n % d ≡ 0) → ⊥
unfolding has_no_divisor
has_no_divisor_sound zero n i d e l m z = omega arith
has_no_divisor_sound (suc steps) n i d e l m z = elim (ℕ_discrete d i) [
  | yes p ↦ ground (arith, ap (λ k. n % k) p)
  | no p ↦ has_no_divisor_sound steps n (suc i) d (ground arith) (omega (arith, p)) (omega arith) z
]

has_no_divisor_complete :
    (steps n i : ℕ)
    → ((d : ℕ) → i ≤ d → d < i + steps → n % d ≡ 0 → ⊥)
    → has_no_divisor steps n i ≡ true
unfolding has_no_divisor
has_no_divisor_complete zero n i h = refl
has_no_divisor_complete (suc steps) n i h =
    let rest = has_no_divisor_complete steps n (suc i) (λ d l m. h d (omega arith) (omega arith)) in
    elim (ℕ_discrete (n % i) 0) [
      | yes p ↦ absurd (h i (omega arith) (omega arith) p)
      | no p ↦ ground (arith, p, rest)
    ]

-- A product of two numbers that are at least 2.
composite : (a b n : ℕ) → 2 ≤ a → 2 ≤ b → a * b ≡ n → (a < n) × (n % a ≡ 0)
composite a b n l m e = (grind (arith, e), ap (λ k. k % a) (sym e) ∙ mul-mod_right a b)

is_prime_sound : (n : ℕ) → is_prime n ≡ true → IsPrime n
unfolding is_prime
is_prime_sound n h = (two, factors)
  where
    two : 2 ≤ n
    two = ground arith

    loop : has_no_divisor (n - 2) n 2 ≡ true
    loop = ground arith

    factors : (a b : ℕ) → a * b ≡ n → (a ≡ 1) ⊎ (b ≡ 1)
    factors a b e = elim (ℕ_discrete a 1) [
      | yes p ↦ inl p
      | no p ↦ elim (ℕ_discrete b 1) [
        | yes q ↦ inr q
        | no q ↦
            let found = composite a b n (grind (arith, e, two, p)) (grind (arith, e, two, q)) e in
            absurd (
              has_no_divisor_sound (n - 2) n 2 a loop (grind (arith, e, two, p))
                (omega (arith, found.0)) found.1)
      ]
    ]

is_prime_complete : (n : ℕ) → IsPrime n → is_prime n ≡ true
unfolding is_prime
is_prime_complete n (two, factors) = ground (arith, two, has_no_divisor_complete (n - 2) n 2 proper)
  where
    proper : (d : ℕ) → 2 ≤ d → d < 2 + (n - 2) → n % d ≡ 0 → ⊥
    proper d l m z =
        let e : d * (n / d) ≡ n = omega (arith, div-add-mod n d, z) in
        elim (factors d (n / d) e) [ inl p ↦ omega arith | inr p ↦ grind (arith, e, p) ]

-- `is_prime` is 1 on the prime numbers and 0 on all others.
pub is_prime_lem : (n : ℕ) → (is_prime n ≡ true) ↔ IsPrime n
is_prime_lem n = (is_prime_sound n, is_prime_complete n)
