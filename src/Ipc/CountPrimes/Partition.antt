-- ===== src/Ipc/CountPrimes/Partition.antt =====
-- The parts that `main` gives to the workers cover the array: every number is in one part.
use operating_systems_and_ne.Base.{
  ℕ, zero, suc, ◌+◌, ◌-◌, ◌*◌, ◌/◌, ◌≤◌, ◌<◌, ◌≡◌, refl, sym, ap, ◌∙◌, List, [], ◌∷◌, ◌++◌, length,
  take, arith, take-add, ℕ_discrete,
}
use native.Mathlib.Nat.{div-mul-le_self}
use operating_systems_and_ne.Ipc.CountPrimes.{count_primes, slice, begin_of, end_of, share}

count_primes-append : (xs ys : List ℕ) → count_primes (xs ++ ys) ≡ count_primes xs + count_primes ys
unfolding count_primes
count_primes-append [] ys = omega arith
count_primes-append (x ∷ xs) ys = omega (arith, count_primes-append xs ys)

count_primes-slice :
    (numbers : List ℕ) (b e : ℕ)
    → b ≤ e
    → count_primes (take b numbers) + count_primes (slice b e numbers)
      ≡ count_primes (take e numbers)
count_primes-slice numbers b e h =
    sym (count_primes-append (take b numbers) (slice b e numbers))
    ∙ ap count_primes (sym (take-add b (e - b) numbers))
    ∙ ap (λ n. count_primes (take n numbers)) same
  where
    same : b + (e - b) ≡ e
    same = omega arith

take-length : (xs : List ℕ) → take (length xs) xs ≡ xs
take-length [] = refl
take-length (x ∷ xs) = ap (λ r. x ∷ r) (take-length xs)

-- The parts of the first `k` workers.
unfoldable pub count_shares : List ℕ → ℕ → ℕ → ℕ
count_shares numbers nworkers zero = 0
count_shares numbers nworkers (suc k) =
    count_shares numbers nworkers k + count_primes (share numbers nworkers k)

end_of-early :
    (total size nworkers i : ℕ) → suc i < nworkers → end_of total size nworkers i ≡ suc i * size
unfolding end_of
end_of-early total size nworkers i h = ground arith

end_of-last : (total size k : ℕ) → end_of total size (suc k) k ≡ total
unfolding end_of
end_of-last total size k = ground arith

-- The parts before the last one are a beginning of the array.
count_shares-take :
    (numbers : List ℕ) (nworkers k : ℕ)
    → k < nworkers
    → count_shares numbers nworkers k
      ≡ count_primes (take (k * (length numbers / nworkers)) numbers)
unfolding count_shares begin_of
count_shares-take numbers nworkers zero h =
    let none_yet : 0 ≡ 0 * (length numbers / nworkers) = omega arith in
    unfold count_primes in ap (λ n. count_primes (take n numbers)) none_yet
count_shares-take numbers nworkers (suc k) h =
    let size = length numbers / nworkers in
    let before = count_shares-take numbers nworkers k (omega arith) in
    rw (end_of-early (length numbers) size nworkers k h)
      (omega (arith, before, count_primes-slice numbers (k * size) (suc k * size) (grind arith)))

-- The last part begins inside the array.
div-mul_le : (n k : ℕ) → k * (n / suc k) ≤ n
div-mul_le n k = grind (arith, div-mul-le_self n (suc k))

-- The parts of the array that `main` gives to its workers are counted to the same number as the
-- whole array, for every number of workers from 1 on.
pub count_shares-all :
    (numbers : List ℕ) (nworkers : ℕ)
    → 1 ≤ nworkers
    → count_shares numbers nworkers nworkers ≡ count_primes numbers
unfolding count_shares begin_of
count_shares-all numbers zero h = absurd (omega arith)
count_shares-all numbers (suc k) h =
    rw (end_of-last (length numbers) size k)
      (omega (arith, before, whole, ap count_primes (take-length numbers)))
  where
    size : ℕ
    size = length numbers / suc k

    before : count_shares numbers (suc k) k ≡ count_primes (take (k * size) numbers)
    before = count_shares-take numbers (suc k) k (omega arith)

    whole :
        count_primes (take (k * size) numbers)
          + count_primes (slice (k * size) (length numbers) numbers)
        ≡ count_primes (take (length numbers) numbers)
    whole =
        count_primes-slice numbers (k * size) (length numbers)
          (grind (arith, div-mul_le (length numbers) k))

count_primes-le-length : (numbers : List ℕ) → count_primes numbers ≤ length numbers
unfolding count_primes
count_primes-le-length [] = omega arith
count_primes-le-length (n ∷ numbers) = ground (arith, count_primes-le-length numbers)

count_shares_mono :
    (numbers : List ℕ) (nworkers k i : ℕ)
    → i ≤ k
    → count_shares numbers nworkers i ≤ count_shares numbers nworkers k
unfolding count_shares
count_shares_mono numbers nworkers zero i h =
    let same : i ≡ 0 = omega arith in omega (arith, ap (count_shares numbers nworkers) same)
count_shares_mono numbers nworkers (suc k) i h =
    let before = count_shares_mono numbers nworkers k i in
    elim (ℕ_discrete i (suc k)) [
      | yes p ↦ omega (arith, ap (count_shares numbers nworkers) p)
      | no p ↦ omega (arith, before (omega (arith, p)))
    ]

-- No partial sum is more than the length of the array.
pub count_shares-le-length :
    (numbers : List ℕ) (nworkers i : ℕ)
    → 1 ≤ nworkers
    → i ≤ nworkers
    → count_shares numbers nworkers i ≤ length numbers
count_shares-le-length numbers nworkers i h l = omega (
  arith,
  count_shares_mono numbers nworkers nworkers i l,
  count_shares-all numbers nworkers h,
  count_primes-le-length numbers,
)
