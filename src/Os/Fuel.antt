-- ===== src/Os/Fuel.antt =====
-- When the fuel of a loop is enough: no call adds answers, and each call that returns uses one.
use operating_systems_and_ne.Base.{ℕ, ◌≤◌, ◌<◌, Option, none, some, arith, length}
use operating_systems_and_ne.Os.{
  Bytes, Fd, World, Outcome, returns, exits, waits, undefined, no_fuel, becomes, M, then_run, read,
  write, add_int,
}
use operating_systems_and_ne.Os.Calls.{Read, read-Read, Write, write-Write}

-- The run does not use up its fuel, and answers are only taken away.
abbrev pub Fueled : {A : Type 0} → ℕ → Outcome A → Type 0
Fueled n (returns a w) = length w.answers ≤ n
Fueled n (no_fuel w) = ⊥
Fueled n _ = Unit

pub Fueled-bind :
    {A B : Type 0} (k n : ℕ) (o : Outcome A) (f : A → M B)
    → Fueled k o
    → ((a : A) (w : World) → length w.answers ≤ k → Fueled n (f a w))
    → Fueled n (then_run o f)
Fueled-bind k n (returns a w) f h rest = rest a w h
Fueled-bind k n (exits code w) f h rest = tt
Fueled-bind k n (waits w) f h rest = tt
Fueled-bind k n (undefined w) f h rest = tt
Fueled-bind k n (becomes file args w) f h rest = tt
Fueled-bind k n (no_fuel w) f h rest = h

-- A call that returns leaves one answer less to the rest.
pub Fueled-read :
    {B : Type 0} (fd : Fd) (k n : ℕ) (w : World) (f : Option Bytes → M B)
    → length w.answers ≤ n
    → ((a : Option Bytes) (v : World) → length v.answers < length w.answers → Fueled n (f a v))
    → Fueled n (then_run (read fd k w) f)
Fueled-read fd k n w f h rest = go (read-Read fd k w)
  where
    go : {o : Outcome (Option Bytes)} → Read fd k w o → Fueled n (then_run o f)
    go Read.blocks = tt
    go (Read.refused e l) = rest none _ (omega (arith, l.used))
    go (Read.got bs fits l) = rest (some bs) _ (omega (arith, l.used))

pub Fueled-write :
    {B : Type 0} (fd : Fd) (bs : Bytes) (n : ℕ) (w : World) (f : Option ℕ → M B)
    → length w.answers ≤ n
    → ((a : Option ℕ) (v : World) → length v.answers < length w.answers → Fueled n (f a v))
    → Fueled n (then_run (write fd bs w) f)
Fueled-write fd bs n w f h rest = go (write-Write fd bs w)
  where
    go : {o : Outcome (Option ℕ)} → Write fd bs w o → Fueled n (then_run o f)
    go Write.blocks = tt
    go (Write.refused e l) = rest none _ (omega (arith, l.used))
    go (Write.took k fits l) = rest (some k) _ (omega (arith, l.used))

pub add_int-Fueled : (a b n : ℕ) (w : World) → length w.answers ≤ n → Fueled n (add_int a b w)
unfolding add_int
add_int-Fueled a b n w h = ground arith
