-- ===== src/Os/Kept.antt =====
-- Runs that open no file and close none.
use mathlib.Core.List.{append_assoc}
use operating_systems_and_ne.Base.{
  ℕ, ◌+◌, ◌≡◌, refl, Bool, true, false, Option, List, [], ◌∷◌, ◌++◌, ltb, Bool-cases, inl, inr,
}
use operating_systems_and_ne.Os.{
  Bytes, Fd, Event, was_opened, was_closed, World, Outcome, returns, exits, becomes, waits,
  undefined, no_fuel, M, then_run, read, write, add_int, int_max,
}
use operating_systems_and_ne.Os.Calls.{Read, read-Read, Write, write-Write}

abbrev pub is_quiet : Event → Bool
is_quiet (was_opened path flags mode fd) = false
is_quiet (was_closed fd) = false
is_quiet e = true

-- No event opens or closes a file.
abbrev pub IsQuiet : List Event → Type 0
IsQuiet [] = Unit
IsQuiet (e ∷ es) = (is_quiet e ≡ true) × IsQuiet es

append-IsQuiet : (a b : List Event) → IsQuiet a → IsQuiet b → IsQuiet (a ++ b)
append-IsQuiet [] b p q = q
append-IsQuiet (e ∷ a) b (p, ps) q = (p, append-IsQuiet a b ps q)

-- Where it returns, the run has logged nothing but quiet events; it does not become another program.
abbrev pub Kept : {A : Type 0} → World → Outcome A → Type 0
Kept w (returns a w') = (new : List Event) × (w'.log ≡ new ++ w.log) × IsQuiet new
Kept w (becomes file args w') = ⊥
Kept w _ = Unit

pub Kept-bind :
    {A B : Type 0} (w : World) (o : Outcome A) (f : A → M B)
    → Kept w o
    → ((a : A) (v : World) → Kept v (f a v))
    → Kept w (then_run o f)
Kept-bind {B = B} w (returns a v) f (new, h, quiet) rest = go (f a v) (rest a v)
  where
    go : (o : Outcome B) → Kept v o → Kept w o
    go (returns b u) =
        λ (more, k, q). (more ++ new, simp (k, h, append_assoc), append-IsQuiet more new q quiet)
    go (exits code u) = λ k. tt
    go (becomes file args u) = λ k. k
    go (waits u) = λ k. tt
    go (undefined u) = λ k. tt
    go (no_fuel u) = λ k. tt
Kept-bind w (exits code v) f h rest = tt
Kept-bind w (becomes file args v) f h rest = h
Kept-bind w (waits v) f h rest = tt
Kept-bind w (undefined v) f h rest = tt
Kept-bind w (no_fuel v) f h rest = tt

pub read-Kept : (fd : Fd) (n : ℕ) (w : World) → Kept w (read fd n w)
read-Kept fd n w = go (read-Read fd n w)
  where
    go : {o : Outcome (Option Bytes)} → Read fd n w o → Kept w o
    go Read.blocks = tt
    go (Read.refused e l) = (_ ∷ [], l.events, (refl, tt))
    go (Read.got bs fits l) = (_ ∷ [], l.events, (refl, tt))

pub write-Kept : (fd : Fd) (bs : Bytes) (w : World) → Kept w (write fd bs w)
write-Kept fd bs w = go (write-Write fd bs w)
  where
    go : {o : Outcome (Option ℕ)} → Write fd bs w o → Kept w o
    go Write.blocks = tt
    go (Write.refused e l) = (_ ∷ [], l.events, (refl, tt))
    go (Write.took k fits l) = (_ ∷ [], l.events, (refl, tt))

pub add_int-Kept : (a b : ℕ) (w : World) → Kept w (add_int a b w)
unfolding add_int
add_int-Kept a b w = elim (Bool-cases (ltb int_max (a + b))) [
  | inl e ↦ rw e tt
  | inr e ↦ rw e ([], refl, tt)
]
