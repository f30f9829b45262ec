-- ===== src/Ipc/Center/Padding.antt =====
-- Where center.c puts its argument.
use Prim.Native.Nat.{◌/◌}
use operating_systems_and_ne.Base.{
  ℕ, zero, suc, ◌+◌, ◌-◌, ◌≤◌, ◌≡◌, refl, ap, ◌∙◌, List, [], ◌∷◌, length, arith,
}
use operating_systems_and_ne.Os.{
  exit_success, Bytes, Answer, pairs, Event, printed, World, returns, M, then_run, pure, ◌>>◌,
}
use operating_systems_and_ne.Ipc.Center.{ioctl_winsize, blank_lines, spaces, main}

-- The log after an event happened `n` more times.
abbrev pub times : ℕ → Event → List Event → List Event
times zero e l = l
times (suc n) e l = times n e (e ∷ l)

blank_lines-times :
    (n : ℕ) (w : World)
    → blank_lines n w ≡ returns tt (record w { log = times n (printed "\n" [] []) w.log })
unfolding blank_lines
blank_lines-times zero w = refl
blank_lines-times (suc n) w = blank_lines-times n (record w { log = printed "\n" [] [] ∷ w.log })

spaces-times :
    (n : ℕ) (w : World)
    → spaces n w ≡ returns tt (record w { log = times n (printed " " [] []) w.log })
unfolding spaces
spaces-times zero w = refl
spaces-times (suc n) w = spaces-times n (record w { log = printed " " [] [] ∷ w.log })

-- What is on the screen after `top` empty lines, the message after `left` spaces, and `top` empty lines.
abbrev pub screen : ℕ → ℕ → Bytes → List Event → List Event
screen top left msg l = times top (printed "\n" [] []) (
    printed "%s\n" (msg ∷ []) []
    ∷ times left (printed " " [] []) (times top (printed "\n" [] []) l))

-- A call that returns, and then the rest.
then_run-returns :
    {A B : Type 0} (m : M A) (k : M B) (a : A) (w v : World) → m w ≡ returns a v → (m >> k) w ≡ k v
then_run-returns m k a w v e = ap (λ o. then_run o (λ x. k)) e

-- center.c with a window of `row` lines and `col` columns: it prints half of the lines empty, the message
-- after some spaces, and half of the lines empty. If the message fits, it stands in the middle: to its
-- right there are as many columns as to its left, or one more. If not, there are no spaces.
pub center_lem :
    (name msg : Bytes) (more : List Bytes) (row col e : ℕ) (rest : List Answer) (l : List Event)
    → (left : ℕ) × (main
          (name ∷ msg ∷ more)
          (record { answers = pairs row col ∷ rest; errno = e; log = l })
        ≡ returns exit_success
            (record { answers = rest; errno = e; log = screen (row / 2) left msg l }))
      × (length msg ≤ col → (left + length msg + left ≤ col) × (col ≤ left + length msg + left + 1))
      × (col ≤ length msg → left ≡ 0)
unfolding main ioctl_winsize
center_lem name msg more row col e rest l =
    (left, shows, λ fits. (omega arith, omega arith), λ long. omega arith)
  where
    left : ℕ
    left = (col - length msg) / 2

    top : ℕ
    top = row / 2

    world : List Event → World
    world log = record { answers = rest; errno = e; log = log }

    shows :
        main (name ∷ msg ∷ more) (record { answers = pairs row col ∷ rest; errno = e; log = l })
        ≡ returns exit_success (world (screen top left msg l))
    shows =
        let above = times top (printed "\n" [] []) l in
        let line = printed "%s\n" (msg ∷ []) [] ∷ times left (printed " " [] []) above in
        then_run-returns (blank_lines top) _ tt (world l) (world above)
          (blank_lines-times top (world l))
        ∙ then_run-returns (spaces left) _ tt (world above)
            (world (times left (printed " " [] []) above)) (spaces-times left (world above))
        ∙ then_run-returns (blank_lines top) (pure exit_success) tt (world line)
            (world (times top (printed "\n" [] []) line)) (blank_lines-times top (world line))
