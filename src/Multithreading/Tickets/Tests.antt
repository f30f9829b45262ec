-- ===== src/Multithreading/Tickets/Tests.antt =====
-- Runs of mutex.c under given schedules, and the theorems at the states reached.
use operating_systems_and_ne.Base.{
  ℕ, zero, suc, ◌+◌, ◌-◌, ◌≤◌, ◌≡◌, ◌≢◌, refl, Option, none, some, List, [], ◌∷◌, arith,
}
use operating_systems_and_ne.Base.Int.{ℤ, pos, negsuc, ◌-ℤ◌}
use operating_systems_and_ne.Multithreading.Tickets.{Sale, Pc, start, move, step}
use operating_systems_and_ne.Multithreading.Tickets.Invariant.{is_sale, Reach, begin, turn}
use operating_systems_and_ne.Multithreading.Tickets.Progress.{sales_add_up, IsStuck}
use operating_systems_and_ne.Multithreading.Tickets.Negative.{negative_never_ends}

record Run (number : ℤ) : Type 0 where
  steps : ℕ
  sales : ℕ
  last : Sale
  reach : Reach number steps sales last

module _ (number : ℤ) where
  advance : (r : Run number) (w : ℕ) (o : Option Sale) → step r.last w ≡ o → Run number
  advance r w none e = r
  advance r w (some t) e = record {
    steps = suc r.steps;
    sales = r.sales + is_sale (r.last.pc w);
    last = t;
    reach = turn w r.reach e;
  }

  run : List ℕ → Run number → Run number
  unfolding advance step move ◌-ℤ◌
  run [] r = r
  run (w ∷ ws) r = run ws (advance r w (step r.last w) refl)

abbrev at_start : (number : ℤ) → Run number
at_start number = record { steps = 0; sales = 0; last = start number; reach = begin }

-- Thread 0 sells the only ticket, and each thread sees that none is left.
abbrev sold_out : Run (pos 1)
sold_out =
    run (pos 1)
      (0 ∷ 0 ∷ 0 ∷ 0 ∷ 0 ∷ 0 ∷ 1 ∷ 1 ∷ 1 ∷ 1 ∷ 2 ∷ 2 ∷ 2 ∷ 2 ∷ 3 ∷ 3 ∷ 3 ∷ 3 ∷ 4 ∷ 4 ∷ 4 ∷ 4 ∷ [])
      (at_start (pos 1))

sales_add_up_example : (sold_out.last.ntickets ≡ pos (1 - sold_out.sales)) × (sold_out.sales ≤ 1)
sales_add_up_example = sales_add_up {number = 1} {s = sold_out.last} sold_out.reach

sold_out-IsStuck : IsStuck sold_out.last
unfolding run step move
sold_out-IsStuck zero l = refl
sold_out-IsStuck (suc zero) l = refl
sold_out-IsStuck (suc (suc zero)) l = refl
sold_out-IsStuck (suc (suc (suc zero))) l = refl
sold_out-IsStuck (suc (suc (suc (suc zero)))) l = refl
sold_out-IsStuck (suc (suc (suc (suc (suc w))))) l = absurd (omega arith)

abbrev in_debt : Run (negsuc 0)
in_debt = run (negsuc 0) (0 ∷ 0 ∷ 0 ∷ 0 ∷ []) (at_start (negsuc 0))

negative_never_ends_example :
    (in_debt.last.ntickets ≡ negsuc 0)
    × ((w : ℕ) → in_debt.last.pc w ≢ Pc.returned)
    × ((w : ℕ) × (t : Sale) × (step in_debt.last w ≡ some t))
negative_never_ends_example = negative_never_ends {s = in_debt.last} in_debt.reach
