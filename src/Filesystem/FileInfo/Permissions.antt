-- ===== src/Filesystem/FileInfo/Permissions.antt =====
-- What `fileperm` says of a mode.
use operating_systems_and_ne.Base.{
  ℕ, zero, suc, ◌≢◌, ◌∙◌, set, ◌<◌, ◌^◌, ap, sym, dec_lt, ◌*◌, ◌/◌, ◌%◌, ◌≡◌, refl, some, [], ◌∷◌,
  ◌++◌, drop, get_elem?, arith, ◌==◌, if◌then◌else◌,
}
use native.Mathlib.Nat.{one-le-pow}
use operating_systems_and_ne.Base.Bits.{bit-bit_and}
use operating_systems_and_ne.Os.{Bytes}
use operating_systems_and_ne.Filesystem.FileInfo.{fileperm, mark}

-- The letter for a permission bit of the mode.
abbrev pub letter : ℕ → ℕ → ℕ → ℕ
letter mode bit c = if mode / bit % 2 == 1 then c else b'-'

set-same : (xs : Bytes) (i v : ℕ) → get_elem? xs i ≡ some v → set xs i v ≡ xs
set-same [] i v h = cc
set-same (x ∷ xs) zero v h = cc
set-same (x ∷ xs) (suc i) v h = ap (λ r. x ∷ r) (set-same xs i v h)

mark-letter :
    (k mode i c : ℕ) (out : Bytes)
    → get_elem? out i ≡ some b'-'
    → mark mode (2 ^ k) i c out ≡ set out i (letter mode (2 ^ k) c)
unfolding mark
mark-letter k mode i c out h = elim (dec_lt 0 (mode / 2 ^ k % 2)) [
  | yes p ↦ ground (arith, bit-bit_and k mode, one, one-le-pow k 2)
  | no p ↦ ground (arith, bit-bit_and k mode, zeros, set-same out i b'-' h)
]
  where
    one : 0 < mode / 2 ^ k % 2 → mode / 2 ^ k % 2 * 2 ^ k ≡ 2 ^ k
    one p = let e : mode / 2 ^ k % 2 ≡ 1 = omega arith in rw e (omega arith)

    zeros : ¬ (0 < mode / 2 ^ k % 2) → mode / 2 ^ k % 2 * 2 ^ k ≡ 0
    zeros p = let e : mode / 2 ^ k % 2 ≡ 0 = omega arith in rw e (omega arith)

-- The nine letters of a mode.
abbrev pub letters : ℕ → Bytes
letters mode =
    letter mode 256 b'r'
    ∷ letter mode 128 b'w'
    ∷ letter mode 64 b'x'
    ∷ letter mode 32 b'r'
    ∷ letter mode 16 b'w'
    ∷ letter mode 8 b'x'
    ∷ letter mode 4 b'r'
    ∷ letter mode 2 b'w'
    ∷ letter mode 1 b'x'
    ∷ []

-- `fileperm` writes nine characters, each the letter of its permission bit if the mode has that
-- bit and a dash if not, and leaves every byte behind them as it was: it writes no terminator.
pub fileperm_lem : (mode : ℕ) (out : Bytes) → fileperm mode out ≡ letters mode ++ drop 9 out
unfolding fileperm
fileperm_lem mode out = rw (
  mark-letter 8 mode 0 b'r'
      (b'-' ∷ b'-' ∷ b'-' ∷ b'-' ∷ b'-' ∷ b'-' ∷ b'-' ∷ b'-' ∷ b'-' ∷ drop 9 out) refl,
  mark-letter 7 mode 1 b'w'
      (letter mode 256 b'r' ∷ b'-' ∷ b'-' ∷ b'-' ∷ b'-' ∷ b'-' ∷ b'-' ∷ b'-' ∷ b'-' ∷ drop 9 out)
      refl,
  mark-letter 6 mode 2 b'x'
      (letter mode 256 b'r'
        ∷ letter mode 128 b'w'
        ∷ b'-'
        ∷ b'-'
        ∷ b'-'
        ∷ b'-'
        ∷ b'-'
        ∷ b'-'
        ∷ b'-'
        ∷ drop 9 out)
      refl,
  mark-letter 5 mode 3 b'r'
      (letter mode 256 b'r'
        ∷ letter mode 128 b'w'
        ∷ letter mode 64 b'x'
        ∷ b'-'
        ∷ b'-'
        ∷ b'-'
        ∷ b'-'
        ∷ b'-'
        ∷ b'-'
        ∷ drop 9 out)
      refl,
  mark-letter 4 mode 4 b'w'
      (letter mode 256 b'r'
        ∷ letter mode 128 b'w'
        ∷ letter mode 64 b'x'
        ∷ letter mode 32 b'r'
        ∷ b'-'
        ∷ b'-'
        ∷ b'-'
        ∷ b'-'
        ∷ b'-'
        ∷ drop 9 out)
      refl,
  mark-letter 3 mode 5 b'x'
      (letter mode 256 b'r'
        ∷ letter mode 128 b'w'
        ∷ letter mode 64 b'x'
        ∷ letter mode 32 b'r'
        ∷ letter mode 16 b'w'
        ∷ b'-'
        ∷ b'-'
        ∷ b'-'
        ∷ b'-'
        ∷ drop 9 out)
      refl,
  mark-letter 2 mode 6 b'r'
      (letter mode 256 b'r'
        ∷ letter mode 128 b'w'
        ∷ letter mode 64 b'x'
        ∷ letter mode 32 b'r'
        ∷ letter mode 16 b'w'
        ∷ letter mode 8 b'x'
        ∷ b'-'
        ∷ b'-'
        ∷ b'-'
        ∷ drop 9 out)
      refl,
  mark-letter 1 mode 7 b'w'
      (letter mode 256 b'r'
        ∷ letter mode 128 b'w'
        ∷ letter mode 64 b'x'
        ∷ letter mode 32 b'r'
        ∷ letter mode 16 b'w'
        ∷ letter mode 8 b'x'
        ∷ letter mode 4 b'r'
        ∷ b'-'
        ∷ b'-'
        ∷ drop 9 out)
      refl,
  mark-letter 0 mode 8 b'x'
      (letter mode 256 b'r'
        ∷ letter mode 128 b'w'
        ∷ letter mode 64 b'x'
        ∷ letter mode 32 b'r'
        ∷ letter mode 16 b'w'
        ∷ letter mode 8 b'x'
        ∷ letter mode 4 b'r'
        ∷ letter mode 2 b'w'
        ∷ b'-'
        ∷ drop 9 out)
      refl,
)

letter-bit :
    (m n bit c : ℕ)
    → c ≢ b'-'
    → some (letter m bit c) ≡ some (letter n bit c)
    → m / bit % 2 ≡ n / bit % 2
letter-bit m n bit c ne e = ground arith

-- The nine characters determine the permission bits of the mode.
pub fileperm_tells : (m n : ℕ) (out : Bytes) → fileperm m out ≡ fileperm n out → m % 512 ≡ n % 512
fileperm_tells m n out e = omega (
  arith,
  letter-bit m n 256 b'r' (omega arith) (at 0),
  letter-bit m n 128 b'w' (omega arith) (at 1),
  letter-bit m n 64 b'x' (omega arith) (at 2),
  letter-bit m n 32 b'r' (omega arith) (at 3),
  letter-bit m n 16 b'w' (omega arith) (at 4),
  letter-bit m n 8 b'x' (omega arith) (at 5),
  letter-bit m n 4 b'r' (omega arith) (at 6),
  letter-bit m n 2 b'w' (omega arith) (at 7),
  letter-bit m n 1 b'x' (omega arith) (at 8),
)
  where
    at : (i : ℕ) → get_elem? (letters m ++ drop 9 out) i ≡ get_elem? (letters n ++ drop 9 out) i
    at i = ap (λ r. get_elem? r i) (sym (fileperm_lem m out) ∙ e ∙ fileperm_lem n out)
