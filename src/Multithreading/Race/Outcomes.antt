-- ===== src/Multithreading/Race/Outcomes.antt =====
-- What race.c can print.
use operating_systems_and_ne.Base.{
  ℕ, zero, suc, ◌<◌, ◌≡◌, inl, inr, refl, none, some, arith, update, List, [], ◌∷◌, Option-cases,
}
use mathlib.Core.Path.{subst, fun_ext}
use operating_systems_and_ne.Base.Int.{ℤ, pos, negsuc, ◌-ℤ◌, ◌≤ℤ◌, -ℤ_parts}
use operating_systems_and_ne.Multithreading.Race.{Sale, Pc, nthreads, start, move, step}

pub data Reach (number : ℤ) : Sale → Type 0 where
  begin : Reach number (start number)
  turn : {s t : Sale} (w : ℕ) → Reach number s → step s w ≡ some t → Reach number t

abbrev pub AllReturned : Sale → Type 0
AllReturned s = (w : ℕ) → w < nthreads → s.pc w ≡ Pc.returned

-- The last thread to return has seen a number that is not positive, and nobody writes after that.
last_return : (s t : Sale) (w : ℕ) → step s w ≡ some t → AllReturned t → t.ntickets ≤ℤ pos 0
unfolding step move
last_return s t w h all = ground (arith, all w)

record Bounded (number : ℕ) (s : Sale) : Type 0 where
  now : s.ntickets ≤ℤ pos number
  reads : (w : ℕ) (read : ℤ) → s.pc w ≡ Pc.writing read → read ≤ℤ pos number

step-Bounded :
    {number : ℕ} {s t : Sale} (w : ℕ) → Bounded number s → step s w ≡ some t → Bounded number t
unfolding step move
step-Bounded {number} {s} {t} w b h = record {
  now = move_now (s.pc w) refl;
  reads = λ v read e. ground (arith, b.now, b.reads v read);
}
  where
    move_now : (q : Pc) → s.pc w ≡ q → t.ntickets ≤ℤ pos number
    move_now (Pc.writing read) e = ground (arith, b.now, b.reads w read, -ℤ_parts read (pos 1))
    move_now q e = ground (arith, b.now)

Reach-Bounded : {number : ℕ} {s : Sale} → Reach (pos number) s → Bounded number s
Reach-Bounded begin = record { now = omega arith; reads = λ w read e. absurd (cc) }
Reach-Bounded (turn w r h) = step-Bounded w (Reach-Bounded r) h

-- In every state that race.c can reach from a number that is not negative, there are at most that
-- many tickets, and when all threads have returned none is left.
pub outcome_bounds :
    {number : ℕ} {s : Sale}
    → Reach (pos number) s
    → (s.ntickets ≤ℤ pos number) × (AllReturned s → s.ntickets ≤ℤ pos 0)
outcome_bounds {s = s} begin = ((Reach-Bounded begin).now, λ all. ground (arith, all 0))
outcome_bounds {s = s} (turn {s = r} w reached h) =
    ((Reach-Bounded (turn w reached h)).now, last_return r s w h)

-- The threads of the list move in turn.
pub after : List ℕ → Sale → Sale
unfolding step move ◌-ℤ◌
after [] s = s
after (w ∷ ws) s = elim (step s w) [ none ↦ after ws s | some t ↦ after ws t ]

pub Reach-after : {number : ℤ} (ws : List ℕ) {s : Sale} → Reach number s → Reach number (after ws s)
unfolding after
Reach-after [] r = r
Reach-after (w ∷ ws) {s} r = elim (Option-cases (step s w)) [
  | inl e ↦ rw (e, after) (Reach-after ws r)
  | inr (t, e) ↦ rw (e, after) (Reach-after ws (turn w r e))
]

-- One turn of the loop by thread 0 alone sells one ticket.
lone_round :
    {number : ℤ} (m : ℕ)
    → Reach number (start (pos (suc (suc m))))
    → Reach number (start (pos (suc m)))
unfolding step move ◌-ℤ◌
lone_round {number} m r =
    subst (Reach number) same
      (turn {t = sold} 0 (turn {t = seen} 0 (turn {t = tested} 0 r (ground arith)) refl) refl)
  where
    tested : Sale
    tested = record (start (pos (suc (suc m)))) { pc = update (λ _. Pc.testing) 0 Pc.reading }

    seen : Sale
    seen = record tested { pc = update tested.pc 0 (Pc.writing tested.ntickets) }

    sold : Sale
    sold = record { ntickets = pos (suc (suc m)) -ℤ pos 1; pc = update seen.pc 0 Pc.testing }

    lower : pos (suc (suc m)) -ℤ pos 1 ≡ pos (suc m)
    lower = ground arith

    idle : ◌≡◌ {A = ℕ → Pc} (update seen.pc 0 Pc.testing) (λ w. Pc.testing)
    idle = fun_ext (λ w. ground arith)

    same : sold ≡ start (pos (suc m))
    same = λ i. record { ntickets = lower i; pc = idle i }

one_left : (n : ℕ) → Reach (pos (suc n)) (start (pos (suc zero)))
one_left n = go n begin
  where
    go :
        (m : ℕ)
        → Reach (pos (suc n)) (start (pos (suc m)))
        → Reach (pos (suc n)) (start (pos (suc zero)))
    go zero r = r
    go (suc m) r = go m (lone_round m r)

-- All threads pass the test before the first of them writes.
abbrev pub oversell : List ℕ
oversell = 0 ∷ 1 ∷ 2 ∷ 3 ∷ 4 ∷ 0 ∷ 0 ∷ 0 ∷ 1 ∷ 1 ∷ 1 ∷ 2 ∷ 2 ∷ 2 ∷ 3 ∷ 3 ∷ 3 ∷ 4 ∷ 4 ∷ 4 ∷ []

-- From every positive number race.c can end with all threads returned and -4 tickets.
pub oversold :
    (number : ℕ)
    → 0 < number
    → (s : Sale) × Reach (pos number) s × AllReturned s × (s.ntickets ≡ negsuc 3)
unfolding after
oversold zero l = absurd (omega arith)
oversold (suc n) l =
    (after oversell (start (pos 1)), Reach-after oversell (one_left n), λ w m. ground arith, refl)
