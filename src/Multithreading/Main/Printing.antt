-- ===== src/Multithreading/Main/Printing.antt =====
-- A `main` that prints once, after the joins: what it prints is what the threads leave behind.
use operating_systems_and_ne.Base.{
  ℕ, zero, suc, ◌<◌, ◌≡◌, ◌⊎◌, refl, Bool, true, false, some, List, [], ◌∷◌, arith, inl, inr,
  Bool-cases, ap, sym, ◌∙◌,
}
use mathlib.Core.Path.{subst}
use operating_systems_and_ne.Multithreading.Errors.{exit_on_error, exit_success}
use operating_systems_and_ne.Multithreading.Main.{
  Call, Threads, Process, call, launch, Run, begin, turn,
}
use operating_systems_and_ne.Multithreading.Main.Calls.{
  main_stepped, thread_stepped, process_step-Stepped, call-threads, is_last,
}
use operating_systems_and_ne.Multithreading.Main.Order.{Laws, Sound, settled}

-- Whether `main` has yet to print.
abbrev pub prints : List Call → Bool
prints [] = false
prints (Call.print ∷ rest) = true
prints (c ∷ rest) = prints rest

abbrev pub PrintsOnce : List Call → Type 0
PrintsOnce [] = Unit
PrintsOnce (c ∷ rest) = (c ≡ Call.print → prints rest ≡ false) × PrintsOnce rest

-- What a call of `main` does to the output.
data Wrote {P : Threads} (s : Process P) (c : Call) (rest : List Call) (t : Process P)
    : Type 0 where
  wrote :
      c ≡ Call.print → t.output ≡ P.shown s.threads ∷ s.output → t.todo ≡ rest → Wrote s c rest t
  silent :
      t.output ≡ s.output
      → (t.todo ≡ rest) ⊎ (t.todo ≡ c ∷ rest)
      → prints (c ∷ rest) ≡ prints t.todo
      → Wrote s c rest t

call-Wrote :
    {P : Threads} (s t : Process P) (err : ℕ) (c : Call) (rest : List Call)
    → s.todo ≡ c ∷ rest
    → call P s err (c ∷ rest) ≡ some t
    → Wrote s c rest t
unfolding call exit_on_error
call-Wrote s t err Call.print rest e h = wrote refl (ground arith) (ground arith)
call-Wrote s t err Call.dispatch_semaphore_create rest e h =
    silent (ground arith) (inl (ground arith)) (ground arith)
call-Wrote {P} s t zero (Call.thread_join w) rest e h = elim (Bool-cases (P.returned s.threads w)) [
  | inl r ↦ silent (ground (arith, r)) (inl (ground (arith, r))) (ground (arith, r))
  | inr r ↦ absurd (ground (arith, r))
]
call-Wrote {P} s t (suc err) (Call.thread_join w) rest e h =
    silent (ground arith) (inr (ground (arith, e))) (ground (arith, e))
call-Wrote s t zero c rest e h = silent (ground arith) (inl (ground arith)) (ground arith)
call-Wrote s t (suc err) c rest e h =
    silent (ground arith) (inr (ground (arith, e))) (ground (arith, e))

-- Before it prints, nothing is on the screen; after that, what the threads have left behind is.
pub data Shown (P : Threads) (n : ℕ) (s : Process P) : Type 0 where
  before : prints s.todo ≡ true → s.output ≡ [] → Shown P n s
  after :
      prints s.todo ≡ false
      → s.output ≡ P.shown s.threads ∷ []
      → ((w : ℕ) → w < n → P.returned s.threads w ≡ true)
      → Shown P n s

tail-PrintsOnce :
    (c : Call) (rest l : List Call)
    → (l ≡ rest) ⊎ (l ≡ c ∷ rest)
    → PrintsOnce (c ∷ rest)
    → PrintsOnce l
tail-PrintsOnce c rest l (inl e) o = subst PrintsOnce (sym e) o.1
tail-PrintsOnce c rest l (inr e) o = subst PrintsOnce (sym e) o

module _ {P : Threads} {n : ℕ} where
  keep :
      (s t : Process P)
      → t.threads ≡ s.threads
      → t.output ≡ s.output
      → prints t.todo ≡ prints s.todo
      → Shown P n s
      → Shown P n t
  keep s t same out e (before p q) = before (e ∙ p) (out ∙ q)
  keep s t same out e (after p q r) =
      after (e ∙ p) (out ∙ q ∙ ap (λ x. P.shown x ∷ []) (sym same)) (λ w l. rw same (r w l))

  call-Shown :
      (s t : Process P) (err : ℕ) (l : List Call)
      → s.todo ≡ l
      → Sound P n s
      → PrintsOnce l
      → Shown P n s
      → call P s err l ≡ some t
      → Shown P n t × PrintsOnce t.todo
  unfolding call
  call-Shown s t err [] e i o sh h =
      let left : t.todo ≡ [] = ground arith in
      (
        keep s t (call-threads s t err [] h) (ground arith) (ap prints (left ∙ sym e)) sh,
        subst PrintsOnce (sym left) tt,
      )
  call-Shown s t err (c ∷ rest) e i o sh h = elim (call-Wrote s t err c rest e h) [
    | wrote is_print out left ↦ (first is_print out left sh, subst PrintsOnce (sym left) o.1)
    | silent out left same ↦ (
      keep s t (call-threads s t err (c ∷ rest) h) out (sym same ∙ ap prints (sym e)) sh,
      tail-PrintsOnce c rest t.todo left o,
    )
  ]
    where
      first :
          c ≡ Call.print
          → t.output ≡ P.shown s.threads ∷ s.output
          → t.todo ≡ rest
          → Shown P n s
          → Shown P n t
      first is_print out left (before p q) =
          let same = call-threads s t err (c ∷ rest) h in
          after (ap prints left ∙ o.0 is_print)
            (out ∙ ap (λ x. P.shown s.threads ∷ x) q ∙ ap (λ x. P.shown x ∷ []) (sym same))
            (λ w l. rw same (settled i e (ap is_last is_print) w l))
      first is_print out left (after p q r) =
          absurd (ground (arith, ap prints e, ap (λ x. prints (x ∷ rest)) is_print, p))

  Run-Shown :
      (laws : Laws P n) {start : P.State} {calls : List Call} {k : ℕ} {s : Process P}
      → ((k : ℕ) (s : Process P) → Run P (launch P start calls) k s → Sound P n s)
      → prints calls ≡ true
      → PrintsOnce calls
      → Run P (launch P start calls) k s
      → Shown P n s × PrintsOnce s.todo
  Run-Shown laws sound p o begin = (before p refl, o)
  Run-Shown laws sound p o (turn {s = s} {t} u r h) =
      let (sh, once) = Run-Shown laws sound p o r in
      elim (process_step-Stepped s t u h) [
        | main_stepped err e g ↦ call-Shown s t err s.todo refl (sound _ s r) once sh g
        | thread_stepped w c made g todo out ended ↦
            (stepped w c g todo out sh, subst PrintsOnce (sym todo) once)
      ]
    where
      stepped :
          (w : ℕ) (c : P.Choice)
          → P.step s.threads w c ≡ some t.threads
          → t.todo ≡ s.todo
          → t.output ≡ s.output
          → Shown P n s
          → Shown P n t
      stepped w c g todo out (before p q) = before (ap prints todo ∙ p) (out ∙ q)
      stepped w c g todo out (after p q r) =
          absurd
            (ground (arith, g, laws.rests s.threads w c (r w (laws.few s.threads t.threads w c g))))

  -- When `main` has returned EXIT_SUCCESS, it has printed once, and what it printed is what the threads
  -- left behind.
  pub printed_once :
      (laws : Laws P n) {start : P.State} {calls : List Call} {k : ℕ} {s : Process P}
      → ((k : ℕ) (s : Process P) → Run P (launch P start calls) k s → Sound P n s)
      → prints calls ≡ true
      → PrintsOnce calls
      → Run P (launch P start calls) k s
      → s.ended ≡ some exit_success
      → s.output ≡ P.shown s.threads ∷ []
  printed_once laws {s = s} sound p o r e = go (Run-Shown laws sound p o r).0
    where
      go : Shown P n s → s.output ≡ P.shown s.threads ∷ []
      go (before p q) = absurd (ground (arith, ap prints ((sound _ s r).success e), p))
      go (after p q r) = q
