-- ===== src/Ipc/Center.antt =====
-- center.c: prints its argument in the middle of the terminal's window.
pub mod Padding
use Prim.Native.Nat.{◌/◌}
use operating_systems_and_ne.Base.{ℕ, zero, suc, ◌-◌, Option, none, some, List, [], ◌∷◌, length}
use operating_systems_and_ne.Os.{
  exit_success, exit_failure, Bytes, Answer, fails, pairs, returns, waits, undefined, M, pure,
  ◌>>=◌, ◌>>◌, ask, printf, failing,
}

-- `struct winsize`, the fields that are used.
pub record Winsize : Type 0 where
  pub ws_row : ℕ
  pub ws_col : ℕ

abbrev pub winsize_answer : Answer → M (Option Winsize)
winsize_answer (fails e) w = failing e w
winsize_answer (pairs row col) w = returns (some (record { ws_row = row; ws_col = col })) w
winsize_answer a w = waits w

-- `ioctl(0, TIOCGWINSZ, &ws)`
unfoldable pub ioctl_winsize : M (Option Winsize)
ioctl_winsize = ask winsize_answer

-- `puts("")`, so many times.
pub blank_lines : ℕ → M (Unit {0})
blank_lines zero = pure tt
blank_lines (suc left) = do printf "\n" [] []; blank_lines left

-- `putchar(' ')`, so many times.
pub spaces : ℕ → M (Unit {0})
spaces zero = pure tt
spaces (suc left) = do printf " " [] []; spaces left

-- `(ws.ws_col - msglen) / 2`: where the message is longer than the window this is not positive, and the
-- loop is not entered.
abbrev pub padding_left : Winsize → Bytes → ℕ
padding_left ws msg = (ws.ws_col - length msg) / 2

-- If `ioctl` fails, `ws` was never set.
abbrev pub centered : Bytes → Option Winsize → M ℕ
centered msg none = undefined
centered msg (some ws) = do
  blank_lines (ws.ws_row / 2)
  spaces (padding_left ws msg)
  printf "%s\n" (msg ∷ []) []
  blank_lines (ws.ws_row / 2)
  pure exit_success

pub main : List Bytes → M ℕ
main (name ∷ msg ∷ more) = do ws ← ioctl_winsize; centered msg ws
main argv = do printf "Usage: %s text\n" argv []; pure exit_failure
