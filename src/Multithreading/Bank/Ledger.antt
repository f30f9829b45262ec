-- ===== src/Multithreading/Bank/Ledger.antt =====
-- What the bank promises, with no threads and no mutexes: a ledger to which transfers are posted, one
-- after the other.
use operating_systems_and_ne.Base.{ℕ, List, [], ◌∷◌, if◌then◌else◌, ◌==◌}
use operating_systems_and_ne.Base.Int.{ℤ, pos, ◌+ℤ◌, ◌-ℤ◌}
use operating_systems_and_ne.Multithreading.Bank.{Transfer, dest, initial_balance}

-- The balance of each deposit.
abbrev pub Ledger : Type 0
Ledger = ℕ → ℤ

abbrev pub opened : Ledger
opened d = pos initial_balance

-- A whole transfer at once.
abbrev pub posted : Transfer → Ledger → Ledger
posted x b d =
    if d == x.from then b d -ℤ pos x.amount else if d == dest x then b d +ℤ pos x.amount else b d

-- The ledger after these transfers, each with the thread that made it, the latest first.
abbrev pub ledger : List (ℕ × Transfer) → Ledger
ledger [] = opened
ledger ((v, x) ∷ xs) = posted x (ledger xs)

-- The transfers of thread `v` among these.
abbrev pub by : ℕ → List (ℕ × Transfer) → List Transfer
by v [] = []
by v ((u, x) ∷ xs) = if u == v then x ∷ by v xs else by v xs
