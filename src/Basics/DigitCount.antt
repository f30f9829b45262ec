-- ===== src/Basics/DigitCount.antt =====
-- dc.c counts each digit, white space and the other characters.
use operating_systems_and_ne.Base.{
  ℕ, suc, ◌+◌, ◌-◌, ◌==◌, ◌≤◌, ◌<◌, ◌≡◌, refl, Bool, true, false, Option, some, List, [], ◌∷◌,
  length, if◌then◌else◌, arith, Bool-cases, inl, inr, sum_upto, sum_upto-update, update,
  weight-le-sum_upto, ℕ_discrete, ap, sum_upto-eq-zero,
}
use operating_systems_and_ne.Os.{int_max}
use operating_systems_and_ne.Basics.{
  increment_lem, is_white, is_digit, Digits, classify, classify_all, dc,
}

abbrev pub count_where : (ℕ → Bool) → List ℕ → ℕ
count_where p [] = 0
count_where p (c ∷ cs) = (if p c then 1 else 0) + count_where p cs

abbrev pub is_other : ℕ → Bool
is_other c = if is_digit c then false else if is_white c then false else true

-- All that `s` has counted.
abbrev pub total : Digits → ℕ
total s = sum_upto (λ n. n) 10 s.ndigit + s.nwhite + s.nother

-- What `o` adds to the counts of `s` for the characters `cs`.
record Classified (s : Digits) (cs : List ℕ) (o : Option Digits) : Type 0 where
  end : Digits
  result : o ≡ some end
  digits : (d : ℕ) → d < 10 → end.ndigit d ≡ s.ndigit d + count_where (λ c. c == d + 48) cs
  white : end.nwhite ≡ s.nwhite + count_where is_white cs
  other : end.nother ≡ s.nother + count_where is_other cs
  sum : total end ≡ total s + length cs

-- No counter is greater than the sum of all.
digit-le-total : (s : Digits) (d : ℕ) → d < 10 → s.ndigit d ≤ total s
digit-le-total s d h = omega (arith, weight-le-sum_upto (λ n. n) 10 s.ndigit d h)

digit_lt : (c : ℕ) → is_digit c ≡ true → c - 48 < 10
digit_lt c e = ground arith

digit_white : (c : ℕ) → is_digit c ≡ true → is_white c ≡ false
unfolding is_white
digit_white c e = ground arith

same_digit :
    (c d : ℕ) (f : ℕ → ℕ)
    → is_digit c ≡ true
    → update f (c - 48) (suc (f (c - 48))) d ≡ f d + ((if c == d + 48 then 1 else 0) + 0)
same_digit c d f e = elim (ℕ_discrete (c - 48) d) [
  | yes p ↦ ground (arith, e, p, ap f p)
  | no p ↦ ground (arith, e, p)
]

other_digit :
    (c d n : ℕ) → is_digit c ≡ false → d < 10 → n ≡ n + ((if c == d + 48 then 1 else 0) + 0)
other_digit c d n e l = ground (arith, e)

-- A round of the loop, where no counter overflows.
classify_round : (s : Digits) (c : ℕ) → total s < int_max → Classified s (c ∷ []) (classify s c)
unfolding classify
classify_round s c h = elim (Bool-cases (is_digit c)) [
  | inl e ↦
      let low : c - 48 < 10 = digit_lt c e in
      let changed = sum_upto-update (λ n. n) 10 s.ndigit (c - 48) (suc (s.ndigit (c - 48))) low in
      record {
        end = record s { ndigit = update s.ndigit (c - 48) (suc (s.ndigit (c - 48))) };
        result =
            rw (e, increment_lem (s.ndigit (c - 48)) (omega (arith, digit-le-total s (c - 48) low)))
              refl;
        digits = λ d l. same_digit c d s.ndigit e;
        white = rw (digit_white c e) (omega arith);
        other = rw e (omega arith);
        sum = omega (arith, changed);
      }
  | inr e ↦ elim (Bool-cases (is_white c)) [
    | inl f ↦ record {
      end = record s { nwhite = suc s.nwhite };
      result = rw (e, f, increment_lem s.nwhite (omega arith));
      digits = λ d l. other_digit c d (s.ndigit d) e l;
      white = ground (arith, f);
      other = ground (arith, e, f);
      sum = omega arith;
    }
    | inr f ↦ record {
      end = record s { nother = suc s.nother };
      result = rw (e, f, increment_lem s.nother (omega arith));
      digits = λ d l. other_digit c d (s.ndigit d) e l;
      white = ground (arith, f);
      other = ground (arith, e, f);
      sum = omega arith;
    }
  ]
]

classify_all-Classified :
    (cs : List ℕ) (s : Digits) → total s + length cs ≤ int_max → Classified s cs (classify_all s cs)
unfolding classify_all
classify_all-Classified [] s h = record {
  end = s;
  result = refl;
  digits = λ d l. omega arith;
  white = omega arith;
  other = omega arith;
  sum = omega arith;
}
classify_all-Classified (c ∷ cs) s h =
    let r = classify_round s c (omega arith) in
    let rest = classify_all-Classified cs r.end (omega (arith, r.sum)) in
    record {
      end = rest.end;
      result = rw r.result rest.result;
      digits = λ d l. omega (arith, r.digits d l, rest.digits d l);
      white = omega (arith, r.white, rest.white);
      other = omega (arith, r.other, rest.other);
      sum = omega (arith, r.sum, rest.sum);
    }

-- On an input of at most 2^31 - 1 characters no counter of dc.c overflows: it counts how often each
-- digit occurs, the blanks, newlines and tabs, and all other characters. The counts add up to the
-- length of the input.
pub dc_lem :
    (cs : List ℕ)
    → length cs ≤ int_max
    → (end : Digits) × (dc cs ≡ some end)
      × ((d : ℕ) → d < 10 → end.ndigit d ≡ count_where (λ c. c == d + 48) cs)
      × (end.nwhite ≡ count_where is_white cs)
      × (end.nother ≡ count_where is_other cs)
      × (total end ≡ length cs)
dc_lem cs h =
    let none_yet = sum_upto-eq-zero (λ n. n) 10 (λ _. 0) (λ i l. refl) in
    let r =
      classify_all-Classified cs (record { ndigit = λ _. 0; nwhite = 0; nother = 0 })
        (omega (arith, none_yet)) in
    (
      r.end,
      r.result,
      λ d l. omega (arith, r.digits d l),
      omega (arith, r.white),
      omega (arith, r.other),
      omega (arith, none_yet, r.sum),
    )
