-- ===== src/Multithreading/Tickets/Invariant.antt =====
-- What every step keeps, from a number of tickets that is not negative.
use operating_systems_and_ne.Base.{ℕ, suc, ◌+◌, ◌<◌, ◌≡◌, refl, Bool, true, false, some, arith}
use operating_systems_and_ne.Base.Int.{ℤ, pos, ◌≤ℤ◌, -ℤ_parts}
use operating_systems_and_ne.Multithreading.Tickets.{Sale, Pc, nthreads, start, move, step}

abbrev pub has_mutex : Pc → Bool
has_mutex Pc.locking = false
has_mutex Pc.returned = false
has_mutex _ = true

-- What a thread knows of the integer while it has the mutex.
abbrev pub Knows : ℤ → Pc → Type 0
Knows n Pc.reading = pos 1 ≤ℤ n
Knows n (Pc.writing read) = (pos 1 ≤ℤ n) × (n ≡ read)
Knows n (Pc.second_test false) = n ≤ℤ pos 0
Knows n Pc.unlocking_to_break = n ≡ pos 0
Knows n Pc.unlocking = pos 1 ≤ℤ n
Knows n Pc.returned = n ≡ pos 0
Knows n _ = Unit

pub record Inv (number : ℕ) (s : Sale) : Type 0 where
  pub held : (w : ℕ) → w < nthreads → has_mutex (s.pc w) ≡ true → s.mutex ≡ some w
  pub owned : (w : ℕ) → s.mutex ≡ some w → (w < nthreads) × (has_mutex (s.pc w) ≡ true)
  pub knows : (w : ℕ) → w < nthreads → Knows s.ntickets (s.pc w)
  pub nonneg : pos 0 ≤ℤ s.ntickets
  pub few : s.ntickets ≤ℤ pos number

pub Inv-start : (number : ℕ) → Inv number (start (pos number))
Inv-start number = record {
  held = λ w l e. cc;
  owned = λ w e. cc;
  knows = λ w l. tt;
  nonneg = omega arith;
  few = omega arith;
}

module _ {number : ℕ} {s t : Sale} (inv : Inv number s) (w : ℕ) (l : w < nthreads) where
  move-held :
      (q : Pc)
      → s.pc w ≡ q
      → move s w q ≡ some t
      → (v : ℕ) → v < nthreads
      → has_mutex (t.pc v) ≡ true
      → t.mutex ≡ some v
  unfolding move
  move-held Pc.locking e h v m q = ground (arith, inv.held v m)
  move-held p e h v m q = ground (arith, inv.held v m, inv.held w l)

  move-owned :
      (q : Pc)
      → s.pc w ≡ q
      → move s w q ≡ some t
      → (v : ℕ) → t.mutex ≡ some v
      → (v < nthreads) × (has_mutex (t.pc v) ≡ true)
  unfolding move
  move-owned Pc.locking e h v q = ground (arith, inv.owned v)
  move-owned p e h v q = ground (arith, inv.owned v)

  move-Knows :
      (q : Pc)
      → s.pc w ≡ q
      → move s w q ≡ some t
      → (v : ℕ) → v < nthreads
      → Knows t.ntickets (t.pc v)
  unfolding move
  move-Knows Pc.locking e h v m = ground (arith, inv.knows v m)
  move-Knows (Pc.writing read) e h v m =
      ground
        (arith, inv.knows v m, inv.knows w l, inv.held v m, inv.held w l, -ℤ_parts read (pos 1))
  move-Knows p e h v m = ground (arith, inv.knows v m, inv.knows w l, inv.nonneg)

  move-range :
      (q : Pc)
      → s.pc w ≡ q
      → move s w q ≡ some t
      → (pos 0 ≤ℤ t.ntickets) × (t.ntickets ≤ℤ s.ntickets)
  unfolding move
  move-range (Pc.writing read) e h = ground (arith, inv.knows w l, -ℤ_parts read (pos 1))
  move-range p e h = ground (arith, inv.nonneg)

pub step-Inv : {number : ℕ} {s t : Sale} (w : ℕ) → Inv number s → step s w ≡ some t → Inv number t
unfolding step
step-Inv {number} {s} {t} w inv h = record {
  held = move-held inv w moved.0 (s.pc w) refl moved.1;
  owned = move-owned inv w moved.0 (s.pc w) refl moved.1;
  knows = move-Knows inv w moved.0 (s.pc w) refl moved.1;
  nonneg = (move-range inv w moved.0 (s.pc w) refl moved.1).0;
  few = omega (arith, inv.few, (move-range inv w moved.0 (s.pc w) refl moved.1).1);
}
  where
    moved : (w < nthreads) × (move s w (s.pc w) ≡ some t)
    moved = ground arith

-- 1 for the step that writes the lower number.
abbrev pub is_sale : Pc → ℕ
is_sale (Pc.writing _) = 1
is_sale _ = 0

-- The states that a scheduler can bring about, with the number of steps and of sales so far.
pub data Reach (number : ℤ) : ℕ → ℕ → Sale → Type 0 where
  begin : Reach number 0 0 (start number)
  turn :
      {n k : ℕ} {s t : Sale} (w : ℕ)
      → Reach number n k s
      → step s w ≡ some t
      → Reach number (suc n) (k + is_sale (s.pc w)) t

pub Reach-Inv : {number n k : ℕ} {s : Sale} → Reach (pos number) n k s → Inv number s
Reach-Inv {number} begin = Inv-start number
Reach-Inv (turn w r h) = step-Inv w (Reach-Inv r) h
