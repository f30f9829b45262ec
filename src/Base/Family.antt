-- ===== src/Base/Family.antt =====
-- Families `ℕ → A` indexed by a thread, a fork or a deposit: one entry changed, and sums of a
-- weight over the first `n` entries.
use Prim.Native.Nat.{ℕ, zero, suc, ◌+◌, ◌*◌, ◌≤◌, ◌<◌}
use mathlib.Core.Path.{◌≡◌, refl}
use native.Mathlib.Decide.{dec_lt}
use native.Mathlib.Omega.{arith}
use operating_systems_and_ne.Base.Tests.{if◌then◌else◌, ◌==◌}

abbrev pub update {ℓ} : {A : Type ℓ} → (ℕ → A) → ℕ → A → ℕ → A
update f i a j = if i == j then a else f j

module _ {ℓ} {A : Type ℓ} (weight : A → ℕ) where
  pub sum_upto : ℕ → (ℕ → A) → ℕ
  sum_upto zero f = 0
  sum_upto (suc n) f = sum_upto n f + weight (f n)

  sum_upto-update_ge :
      (n : ℕ) (f : ℕ → A) (i : ℕ) (a : A) → n ≤ i → sum_upto n (update f i a) ≡ sum_upto n f
  unfolding sum_upto
  sum_upto-update_ge zero f i a h = refl
  sum_upto-update_ge (suc n) f i a h = ground (arith, sum_upto-update_ge n f i a)

  -- Changing one entry changes the sum by the difference of the two weights.
  pub sum_upto-update :
      (n : ℕ) (f : ℕ → A) (i : ℕ) (a : A)
      → i < n
      → sum_upto n (update f i a) + weight (f i) ≡ sum_upto n f + weight a
  unfolding sum_upto
  sum_upto-update zero f i a h = elim h [ ]
  sum_upto-update (suc n) f i a h = elim (dec_lt i n) [
    | yes below ↦ ground (arith, sum_upto-update n f i a below)
    | no last ↦ ground (arith, sum_upto-update_ge n f i a)
  ]

  pub sum_upto-le-mul :
      (n k : ℕ) (f : ℕ → A) → ((i : ℕ) → i < n → weight (f i) ≤ k) → sum_upto n f ≤ n * k
  unfolding sum_upto
  sum_upto-le-mul zero k f h = omega arith
  sum_upto-le-mul (suc n) k f h =
      grind (arith, h n (omega arith), sum_upto-le-mul n k f (λ i p. h i (omega arith)))

  pub sum_upto-eq-zero :
      (n : ℕ) (f : ℕ → A) → ((i : ℕ) → i < n → weight (f i) ≡ 0) → sum_upto n f ≡ 0
  unfolding sum_upto
  sum_upto-eq-zero zero f h = refl
  sum_upto-eq-zero (suc n) f h =
      omega (arith, h n (omega arith), sum_upto-eq-zero n f (λ i p. h i (omega arith)))

  pub sum_upto-eq-mul :
      (n k : ℕ) (f : ℕ → A) → ((i : ℕ) → i < n → weight (f i) ≡ k) → sum_upto n f ≡ n * k
  unfolding sum_upto
  sum_upto-eq-mul zero k f h = omega arith
  sum_upto-eq-mul (suc n) k f h =
      grind (arith, h n (omega arith), sum_upto-eq-mul n k f (λ i p. h i (omega arith)))

  pub weight-le-sum_upto : (n : ℕ) (f : ℕ → A) (i : ℕ) → i < n → weight (f i) ≤ sum_upto n f
  unfolding sum_upto
  weight-le-sum_upto zero f i h = elim h [ ]
  weight-le-sum_upto (suc n) f i h = elim (dec_lt i n) [
    | yes below ↦ omega (arith, weight-le-sum_upto n f i below)
    | no last ↦ let same : i ≡ n = omega arith in rw same (omega arith)
  ]
