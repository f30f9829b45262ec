-- ===== src/Filesystem/Crc.antt =====
-- crc8.c: the CRC-8 of a file, a buffer at a time.
pub mod Detection
pub mod File
use Prim.Native.Nat.{bit_and, bit_xor}
use operating_systems_and_ne.Base.{
  ℕ, zero, suc, ◌*◌, ◌%◌, ◌^◌, Bool, true, false, Option, none, some, List, [], ◌∷◌, ◌==◌,
  if◌then◌else◌,
}
use operating_systems_and_ne.Os.{
  exit_success, exit_failure, Bytes, Fd, o_rdonly, no_fuel, M, pure, ◌>>=◌, ◌>>◌, with_fuel, read,
  open_file, close, perror, printf,
}

abbrev pub buff_size : ℕ
buff_size = 256

-- `crc & 0x80 ? (crc << 1) ^ 0x31 : crc << 1`, cut to an `unsigned char`.
pub shift_bit : ℕ → ℕ
shift_bit crc = (if bit_and crc 0x80 == 0 then crc * 2 else bit_xor (crc * 2) 0x31) % 2 ^ 8

-- The loop over the eight bits.
pub shift_bits : ℕ → ℕ → ℕ
shift_bits zero crc = crc
shift_bits (suc i) crc = shift_bits i (shift_bit crc)

-- `crc8` over the block; `init` and the bytes are `unsigned char`.
pub crc8 : Bytes → ℕ → ℕ
crc8 [] crc = crc
crc8 (b ∷ bs) crc = crc8 bs (shift_bits 8 (bit_xor crc b))

-- The loop of `filecrc8`; `none` is -1.
abbrev after_read : (ℕ → M (Option ℕ)) → ℕ → Option Bytes → M (Option ℕ)
after_read loop crc none = pure none
after_read loop crc (some []) = pure (some crc)
after_read loop crc (some (b ∷ bs)) = loop (crc8 (b ∷ bs) (crc % 2 ^ 8))

pub filecrc8_loop : ℕ → Fd → ℕ → M (Option ℕ)
filecrc8_loop zero fd crc = no_fuel
filecrc8_loop (suc fuel) fd crc = read fd buff_size >>= after_read (filecrc8_loop fuel fd) crc

pub filecrc8 : Fd → M (Option ℕ)
filecrc8 fd = with_fuel (λ f. filecrc8_loop f fd 0xff)

abbrev report : Fd → Option ℕ → M ℕ
report fd none = do perror "filecrc8"; close fd; pure exit_failure
report fd (some filecrc) = do printf "%x\n" [] (filecrc ∷ []); close fd; pure exit_success

abbrev opened : Option Fd → M ℕ
opened none = do perror "open"; pure exit_failure
opened (some fd) = do filecrc ← filecrc8 fd; report fd filecrc

pub main : List Bytes → M ℕ
main (name ∷ path ∷ more) = do fd ← open_file path (o_rdonly ∷ []) 0; opened fd
main argv = do printf "Usage: %s <filepath>\n" argv []; pure exit_failure
