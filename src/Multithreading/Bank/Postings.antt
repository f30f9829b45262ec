-- ===== src/Multithreading/Bank/Postings.antt =====
-- What a step of the bank does to the ledger that the state stands for.
use operating_systems_and_ne.Base.{
  ℕ, ◌+◌, ◌<◌, ◌≡◌, ap, ◌∙◌, Option, none, some, arith, sum_upto, sum_upto-update, if◌then◌else◌,
  ◌==◌, update,
}
use operating_systems_and_ne.Base.Int.{
  ℤ, pos, pos_part, neg_part, ◌+ℤ◌, +ℤ_parts, -ℤ_parts, eq_of_parts,
}
use operating_systems_and_ne.Multithreading.Errors.{exit_on_error}
use operating_systems_and_ne.Multithreading.Bank.{
  Program, Bank, Worker, Transfer, Pc, Stage, Choice, dest, nworkers, ndeposits, transact, move,
}
use operating_systems_and_ne.Multithreading.Bank.Invariant.{balance, Inv}
use operating_systems_and_ne.Multithreading.Bank.Ledger.{Ledger, posted}

-- Money that is on its way to deposit `d`.
abbrev pub toward : ℕ → Pc → ℕ
toward d (Pc.exec_transaction Stage.crediting x) = if d == dest x then x.amount else 0
toward d (Pc.exec_transaction (Stage.credited read) x) = if d == dest x then x.amount else 0
toward d q = 0

abbrev pub incoming : ℕ → (ℕ → Worker) → ℕ
incoming d ws = sum_upto (λ (w : Worker). toward d w.pc) nworkers ws

-- The state stands for the ledger: money on its way counts as arrived.
abbrev pub Represents : Bank → Ledger → Type 0
Represents s b = (d : ℕ) → d < ndeposits → balance s d +ℤ pos (incoming d s.workers) ≡ b d

-- The transfer that the next step of the thread posts.
abbrev pub posting : Pc → Option Transfer
posting (Pc.exec_transaction (Stage.debited read) x) = some x
posting q = none

abbrev pub after : Option Transfer → Ledger → Ledger
after none b = b
after (some x) b = posted x b

-- What a change of a worker does to the money on its way.
incoming-update :
    (d w : ℕ) (ws : ℕ → Worker) (a : Worker)
    → w < nworkers
    → incoming d (update ws w a) + toward d (ws w).pc ≡ incoming d ws + toward d a.pc
incoming-update d w ws a = sum_upto-update (λ (w : Worker). toward d w.pc) nworkers ws w a

-- Balance and money on its way, by parts.
same_total :
    (a b : ℤ) (m n : ℕ)
    → pos_part a + m + neg_part b ≡ neg_part a + pos_part b + n
    → a +ℤ pos m ≡ b +ℤ pos n
same_total a b m n h = eq_of_parts _ _ (omega (arith, h, +ℤ_parts a (pos m), +ℤ_parts b (pos n)))

-- What a transfer takes from a deposit, and what it gives to it.
abbrev out_of : ℕ → Transfer → ℕ
out_of d x = if d == x.from then x.amount else 0

abbrev into : ℕ → Transfer → ℕ
into d x = if d == dest x then x.amount else 0

posted_parts :
    (x : Transfer) (b : Ledger) (d : ℕ)
    → x.from < ndeposits
    → pos_part (posted x b d) + neg_part (b d) + out_of d x
      ≡ neg_part (posted x b d) + pos_part (b d) + into d x
posted_parts x b d l = ground (arith, -ℤ_parts (b d) (pos x.amount), +ℤ_parts (b d) (pos x.amount))

-- A balance that goes down, and money on its way that goes up.
debit_total :
    (a b a' b' : ℤ) (m loss gain : ℕ)
    → a +ℤ pos m ≡ b
    → pos_part a' + neg_part a + loss ≡ neg_part a' + pos_part a
    → pos_part b' + neg_part b + loss ≡ neg_part b' + pos_part b + gain
    → a' +ℤ pos (m + gain) ≡ b'
debit_total a b a' b' m loss gain r h k = eq_of_parts _ _ (
    omega
      (arith, h, k, ap pos_part r, ap neg_part r, +ℤ_parts a (pos m), +ℤ_parts a' (pos (m + gain))))

module _ {p : Program} {s t : Bank} (inv : Inv p s) (w : ℕ) (c : Choice) (l : w < nworkers) where
  debit-balance :
      (x : Transfer) (read : ℤ)
      → (s.workers w).pc ≡ Pc.exec_transaction (Stage.debited read) x
      → move p s w c (Pc.exec_transaction (Stage.debited read) x) ≡ some t
      → (d : ℕ)
      → pos_part (balance t d) + neg_part (balance s d) + out_of d x
        ≡ neg_part (balance t d) + pos_part (balance s d)
  unfolding move transact
  debit-balance x read e h d = ground (arith, inv.fresh w l, -ℤ_parts read (pos x.amount))

  debit-incoming :
      (x : Transfer) (read : ℤ)
      → (s.workers w).pc ≡ Pc.exec_transaction (Stage.debited read) x
      → move p s w c (Pc.exec_transaction (Stage.debited read) x) ≡ some t
      → (d : ℕ) → incoming d t.workers ≡ incoming d s.workers + into d x
  unfolding move transact
  debit-incoming x read e h d = ground (
    arith,
    incoming-update d w s.workers
        (record (s.workers w) { pc = Pc.exec_transaction Stage.crediting x }) l,
  )

  pub move-Represents :
      (q : Pc)
      → (s.workers w).pc ≡ q
      → move p s w c q ≡ some t
      → (b : Ledger) → Represents s b
      → Represents t (after (posting q) b)
  unfolding move exit_on_error transact
  move-Represents Pc.loop_head e h b r d m =
      same_total (balance t d) (balance s d) _ _ (grind (arith, incoming-update)) ∙ r d m
  move-Represents (Pc.exec_transaction (Stage.debited read) x) e h b r d m =
      ap (λ k. balance t d +ℤ pos k) (debit-incoming x read e h d)
      ∙ debit_total (balance s d) (b d) (balance t d) (posted x b d) (incoming d s.workers)
          (out_of d x) (into d x) (r d m) (debit-balance x read e h d)
          (posted_parts x b d (ground (arith, inv.fits w)))
  move-Represents (Pc.exec_transaction (Stage.credited read) x) e h b r d m =
      same_total (balance t d) (balance s d) _ _ (
        ground (
          arith,
          inv.fresh w l,
          inv.fits w,
          +ℤ_parts read (pos x.amount),
          incoming-update d w s.workers
              (record (s.workers w) { pc = Pc.exec_transaction Stage.unlocking_snd x }) l,
        ))
      ∙ r d m
  move-Represents (Pc.exec_transaction g x) e h b r d m =
      same_total (balance t d) (balance s d) _ _ (grind (arith, incoming-update)) ∙ r d m
  move-Represents Pc.returned e h b r d m = ground arith
