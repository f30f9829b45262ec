-- ===== src/Multithreading/Tickets/Negative.antt =====
-- mutex.c from a negative number: the first test always fails, and so does the second.
use operating_systems_and_ne.Base.{
  ℕ, ◌<◌, ◌≡◌, ◌≢◌, ◌⊎◌, inl, inr, refl, none, some, arith, Option-cases,
}
use operating_systems_and_ne.Base.Int.{negsuc}
use operating_systems_and_ne.Multithreading.Tickets.{Sale, Pc, nthreads, move, step}
use operating_systems_and_ne.Multithreading.Tickets.Invariant.{Reach, begin, turn}

-- The places that a thread can reach.
abbrev InLoop : Pc → Type 0
InLoop Pc.reading = ⊥
InLoop (Pc.writing _) = ⊥
InLoop Pc.unlocking_to_break = ⊥
InLoop Pc.returned = ⊥
InLoop _ = Unit

record Inv (debt : ℕ) (s : Sale) : Type 0 where
  same : s.ntickets ≡ negsuc debt
  loops : (w : ℕ) → InLoop (s.pc w)
  owned : (w : ℕ) → s.mutex ≡ some w → (w < nthreads) × (s.pc w ≢ Pc.locking)

module _ {debt : ℕ} {s t : Sale} (inv : Inv debt s) (w : ℕ) (l : w < nthreads) where
  move-Inv : (q : Pc) → s.pc w ≡ q → move s w q ≡ some t → Inv debt t
  unfolding move
  move-Inv Pc.locking e h = record {
    same = ground (arith, inv.same);
    loops = λ v. ground (arith, inv.loops v);
    owned = λ v q. ground (arith, inv.owned v);
  }
  move-Inv q e h = record {
    same = ground (arith, inv.same, inv.loops w);
    loops = λ v. ground (arith, inv.same, inv.loops v, inv.loops w);
    owned = λ v m. ground (arith, inv.owned v, inv.loops w);
  }

step-Inv : {debt : ℕ} {s t : Sale} (w : ℕ) → Inv debt s → step s w ≡ some t → Inv debt t
unfolding step
step-Inv {s = s} {t} w inv h = move-Inv inv w moved.0 (s.pc w) refl moved.1
  where
    moved : (w < nthreads) × (move s w (s.pc w) ≡ some t)
    moved = ground arith

Reach-Inv : {debt n k : ℕ} {s : Sale} → Reach (negsuc debt) n k s → Inv debt s
Reach-Inv begin = record { same = refl; loops = λ w. tt; owned = λ w e. cc }
Reach-Inv (turn w r h) = step-Inv w (Reach-Inv r) h

-- From a negative number mutex.c runs forever: in every reachable state nothing has been sold, no
-- thread has returned, and some thread can move.
pub negative_never_ends :
    {debt n k : ℕ} {s : Sale}
    → Reach (negsuc debt) n k s
    → (s.ntickets ≡ negsuc debt)
      × ((w : ℕ) → s.pc w ≢ Pc.returned)
      × ((w : ℕ) × (t : Sale) × (step s w ≡ some t))
unfolding step move
negative_never_ends {debt} {s = s} r =
    (inv.same, (λ w e. ground (arith, inv.loops w)), mover (Option-cases s.mutex))
  where
    inv : Inv debt s
    inv = Reach-Inv r

    go :
        (w : ℕ)
        → w < nthreads
        → (s.pc w ≢ Pc.locking) ⊎ (s.mutex ≡ none)
        → (w : ℕ) × (t : Sale) × (step s w ≡ some t)
    go w l free = elim (Option-cases (step s w)) [
      | inl e ↦ absurd (ground (arith, inv.loops w))
      | inr (t, e) ↦ (w, t, e)
    ]

    mover :
        (s.mutex ≡ none) ⊎ ((w : ℕ) × (s.mutex ≡ some w))
        → (w : ℕ) × (t : Sale) × (step s w ≡ some t)
    mover (inl free) = go 0 (omega arith) (inr free)
    mover (inr (w, held)) = go w (inv.owned w held).0 (inl (inv.owned w held).1)
