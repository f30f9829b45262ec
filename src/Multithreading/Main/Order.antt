-- ===== src/Multithreading/Main/Order.antt =====
-- What the order of the calls in `main` guarantees, for all programs: the joins come first.
use operating_systems_and_ne.Base.{
  ℕ, ◌<◌, ◌≡◌, refl, true, false, none, some, List, [], ◌∷◌, arith, Option-cases, ap, sym, ◌∙◌, inl,
  inr,
}
use mathlib.Core.Path.{subst}
use operating_systems_and_ne.Multithreading.Errors.{exit_success}
use operating_systems_and_ne.Multithreading.Main.{
  Call, Threads, Process, Turn, call, process_step, launch, Run, begin, turn,
}
use operating_systems_and_ne.Multithreading.Main.Calls.{
  pending, creating, is_last, Orderly, pending-last, Called, call-Called, pending-cons,
  pending-tail, creating-cons, fails, goes_on,
}

-- What the threads promise: a thread that has returned makes no step and stays so when others step,
-- and there are at most `n` threads.
pub record Laws (P : Threads) (n : ℕ) : Type 0 where
  pub rests : (s : P.State) (w : ℕ) (c : P.Choice) → P.returned s w ≡ true → P.step s w c ≡ none
  pub stays :
      (s t : P.State) (v w : ℕ) (c : P.Choice)
      → P.returned s v ≡ true
      → P.step s w c ≡ some t
      → P.returned t v ≡ true
  pub few : (s t : P.State) (w : ℕ) (c : P.Choice) → P.step s w c ≡ some t → w < n

-- What holds at every moment of a process with the threads 0 to n - 1.
pub record Sound (P : Threads) (n : ℕ) (s : Process P) : Type 0 where
  pub orderly : Orderly s.todo
  pub joined : (w : ℕ) → w < n → pending w s.todo ≡ false → P.returned s.threads w ≡ true
  pub targets : (w : ℕ) → pending w s.todo ≡ true → w < n
  pub exists : (w : ℕ) → w < n → creating w s.todo ≡ false → s.created w ≡ true
  pub success : s.ended ≡ some exit_success → s.todo ≡ []

module _ {P : Threads} {n : ℕ} where
  nil-Sound :
      (s t : Process P) (err : ℕ)
      → s.todo ≡ []
      → Sound P n s
      → call P s err [] ≡ some t
      → Sound P n t
  unfolding call
  nil-Sound s t err e i h = record {
    orderly = ground (arith, i.orderly);
    joined = λ w l. ground (arith, i.joined w l);
    targets = λ w. ground (arith, i.targets w);
    exists = λ w l. ground (arith, i.exists w l);
    success = λ q. ground arith;
  }

  cons-Sound :
      (s t : Process P) (c : Call) (rest : List Call)
      → s.todo ≡ c ∷ rest
      → Sound P n s
      → s.ended ≡ none
      → Called P s c rest t
      → Sound P n t
  cons-Sound s t c rest e i r (fails h) = record {
    orderly = ground (arith, i.orderly);
    joined = λ w l. ground (arith, i.joined w l);
    targets = λ w. ground (arith, i.targets w);
    exists = λ w l. ground (arith, i.exists w l);
    success = λ q. absurd (ground arith);
  }
  cons-Sound s t c rest e i r (goes_on same running left join created create) = record {
    orderly = rw left tail.2;
    joined = λ w l q. rw same (elim (pending-cons w c rest (ap (pending w) (sym left) ∙ q)) [
      | inl before ↦ i.joined w l (ap (pending w) e ∙ before)
      | inr now ↦ join w now
    ]);
    targets = λ w q.
        i.targets w (ap (pending w) e ∙ pending-tail w c rest (ap (pending w) (sym left) ∙ q));
    exists = λ w l q. elim (creating-cons w c rest (ap (creating w) (sym left) ∙ q)) [
      | inl before ↦ created w (i.exists w l (ap (creating w) e ∙ before))
      | inr now ↦ create w now
    ];
    success = λ q. absurd (ground arith);
  }
    where
      tail : Orderly (c ∷ rest)
      tail = subst Orderly e i.orderly

  module _ (laws : Laws P n) where
    process_step-Sound :
        (s t : Process P) (u : Turn P) → Sound P n s → process_step P s u ≡ some t → Sound P n t
    unfolding process_step
    process_step-Sound s t (Turn.of_main err) i h = go s.todo refl (ground arith)
      where
        running : s.ended ≡ none
        running = ground arith

        go : (l : List Call) → s.todo ≡ l → call P s err l ≡ some t → Sound P n t
        go [] e g = nil-Sound s t err e i g
        go (c ∷ rest) e g = cons-Sound s t c rest e i running (call-Called P s t err c rest g)
    process_step-Sound s t (Turn.of_thread w c) i h = record {
      orderly = ground (arith, i.orderly);
      joined = λ v l q. stay v (ground (arith, i.joined v l));
      targets = λ v. ground (arith, i.targets v);
      exists = λ v l. ground (arith, i.exists v l);
      success = ground (arith, i.success);
    }
      where
        stay : (v : ℕ) → P.returned s.threads v ≡ true → P.returned t.threads v ≡ true
        stay v q = elim (Option-cases (P.step s.threads w c)) [
          | inl e ↦ absurd (ground arith)
          | inr (u, e) ↦ rw (moved u e) (laws.stays s.threads u v w c q e)
        ]
          where
            moved : (u : P.State) → P.step s.threads w c ≡ some u → t.threads ≡ u
            moved u e = ground (arith, e)

    pub Run-Sound :
        {start : P.State} {calls : List Call} {k : ℕ} {s : Process P}
        → Orderly calls
        → ((w : ℕ) → pending w calls ≡ true → w < n)
        → ((w : ℕ) → w < n → (creating w calls ≡ true) × (pending w calls ≡ true))
        → Run P (launch P start calls) k s
        → Sound P n s
    Run-Sound o low all begin = record {
      orderly = o;
      joined = λ w l q. absurd (ground (arith, all w l));
      targets = low;
      exists = λ w l q. absurd (ground (arith, all w l));
      success = λ q. absurd (cc);
    }
    Run-Sound o low all (turn {s = s} {t} u r h) =
        process_step-Sound s t u (Run-Sound o low all r) h

  -- When `main` has come to a destroy or a print, and when it has returned EXIT_SUCCESS, all threads
  -- have returned.
  pub settled :
      {s : Process P} {c : Call} {rest : List Call}
      → Sound P n s
      → s.todo ≡ c ∷ rest
      → is_last c ≡ true
      → (w : ℕ) → w < n
      → P.returned s.threads w ≡ true
  settled {s} {c} {rest} i e last w l =
      i.joined w l
        (ap (pending w) e ∙ pending-last w c rest last ∙ (subst Orderly e i.orderly).0 last w)

  pub success_returned :
      {s : Process P}
      → Sound P n s
      → s.ended ≡ some exit_success
      → (w : ℕ) → w < n
      → P.returned s.threads w ≡ true
  success_returned i e w l = i.joined w l (ap (pending w) (i.success e))
