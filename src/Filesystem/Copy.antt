-- ===== src/Filesystem/Copy.antt =====
-- copy.c: copies a file through a buffer, writing again what a short write left over.
pub mod Loops
pub mod Correct
pub mod Enough
pub mod Closing
use operating_systems_and_ne.Base.{
  ℕ, zero, suc, Bool, true, false, Option, none, some, List, [], ◌∷◌, length, drop, ◌==◌,
}
use operating_systems_and_ne.Os.{
  exit_success, exit_failure, int_max, Bytes, Fd, o_rdonly, o_wronly, o_creat, o_trunc, no_fuel, M,
  pure, ◌>>=◌, ◌>>◌, with_fuel, add_int, read, write, open_file, close, perror, printf,
}

abbrev pub buff_size : ℕ
buff_size = 1024

-- The `do ... while (remb)` loop over the `remb` bytes at `pbuff`, with `loop` for its next rounds;
-- `false` is its `return -1`.
abbrev while_left : (Bytes → M Bool) → Bytes → M Bool
while_left loop [] = pure true
while_left loop (b ∷ bs) = loop (b ∷ bs)

abbrev after_write : (Bytes → M Bool) → Bytes → Option ℕ → M Bool
after_write loop pbuff none = pure false
after_write loop pbuff (some wb) = while_left loop (drop wb pbuff)

write_loop : ℕ → Fd → Bytes → M Bool
write_loop zero dstd pbuff = no_fuel
write_loop (suc fuel) dstd pbuff = write dstd pbuff >>= after_write (write_loop fuel dstd) pbuff

-- The outer loop of `copy`; `none` is -1.
abbrev after_round : (ℕ → M (Option ℕ)) → ℕ → Bool → M (Option ℕ)
after_round loop total_bytes true = loop total_bytes
after_round loop total_bytes false = pure none

abbrev after_read : (ℕ → M (Option ℕ)) → Fd → ℕ → Option Bytes → M (Option ℕ)
after_read loop dstd total_bytes none = pure none
after_read loop dstd total_bytes (some []) = pure (some total_bytes)
after_read loop dstd total_bytes (some (b ∷ bs)) = do
  total ← add_int total_bytes (length (b ∷ bs))
  written ← with_fuel (λ f. write_loop f dstd (b ∷ bs))
  after_round loop total written

pub copy_loop : ℕ → Fd → Fd → ℕ → M (Option ℕ)
copy_loop zero srcd dstd total_bytes = no_fuel
copy_loop (suc fuel) srcd dstd total_bytes =
    read srcd buff_size >>= after_read (copy_loop fuel srcd dstd) dstd total_bytes

pub copy : Fd → Fd → M (Option ℕ)
copy srcd dstd = with_fuel (λ f. copy_loop f srcd dstd 0)

-- `main`, from the opened source on.
pub copy_to : Fd → Bytes → M ℕ
copy_to srcd destination = do
  dstd ← open_file destination (o_wronly ∷ o_trunc ∷ o_creat ∷ []) 0o666
  elim dstd [
    | none ↦ do perror "open"; close srcd; pure exit_failure
    | some fd ↦ do
      total ← copy srcd fd
      elim total [
        | none ↦ do perror "copy"; close srcd; close fd; pure exit_failure
        | some n ↦ do close srcd; close fd; pure exit_success
      ]
  ]

pub main : List Bytes → M ℕ
main (name ∷ source ∷ destination ∷ more) = do
  srcd ← open_file source (o_rdonly ∷ []) 0
  elim srcd [ none ↦ do perror "open"; pure exit_failure | some fd ↦ copy_to fd destination ]
main (name ∷ more) = do
  printf "Usage: %s <source> <destination>\n" (name ∷ []) []
  pure exit_failure
main [] = do printf "Usage: %s <source> <destination>\n" [] []; pure exit_failure
