-- ===== src/Basics/WordCount.antt =====
-- wc.c counts lines, words and characters.
use operating_systems_and_ne.Base.{
  ℕ, suc, ◌+◌, ◌==◌, ◌≤◌, ◌≡◌, refl, Bool, true, false, some, List, [], ◌∷◌, length, if◌then◌else◌,
  arith, ◌<◌, Bool-cases, inl, inr, ◌∙◌, ap,
}
use operating_systems_and_ne.Os.{int_max}
use operating_systems_and_ne.Basics.{
  increment_lem, increment_if, newline, is_white, State, Counts, is_outside, count, count_all, wc,
}

-- The words of a text: the longest runs of characters that are not white space.
abbrev pub extend : ℕ → Bool → List (List ℕ) → List (List ℕ)
extend c true (w ∷ ws) = (c ∷ w) ∷ ws
extend c b ws = (c ∷ []) ∷ ws

abbrev pub in_word : List ℕ → Bool
in_word [] = false
in_word (c ∷ cs) = if is_white c then false else true

abbrev pub words : List ℕ → List (List ℕ)
words [] = []
words (c ∷ cs) = let rest = words cs in if is_white c then rest else extend c (in_word cs) rest

abbrev pub newlines : List ℕ → ℕ
newlines [] = 0
newlines (c ∷ cs) = (if c == newline then 1 else 0) + newlines cs

length-extend :
    (c : ℕ) (cs : List ℕ)
    → length (extend c (in_word cs) (words cs)) + (if in_word cs then 1 else 0)
      ≡ suc (length (words cs))
length-extend c [] = refl
length-extend c (d ∷ cs) = elim (Bool-cases (is_white d)) [
  | inl e ↦ rw e (omega arith)
  | inr e ↦ rw e (nonempty (in_word cs) (words cs))
]
  where
    nonempty :
        (b : Bool) (ws : List (List ℕ))
        → length (extend c true (extend d b ws)) + 1 ≡ suc (length (extend d b ws))
    nonempty true [] = refl
    nonempty true (w ∷ ws) = omega arith
    nonempty false ws = omega arith

-- A word that goes on from before is not counted again.
abbrev carry : State → List ℕ → ℕ
carry st cs = if is_outside st then 0 else if in_word cs then 1 else 0

record Counted (s : Counts) (cs : List ℕ) : Type 0 where
  end : Counts
  result : count_all s cs ≡ some end
  lines : end.nl ≡ s.nl + newlines cs
  chars : end.nc ≡ s.nc + length cs
  complete : end.nw + carry s.state cs ≡ s.nw + length (words cs)

-- One round of the loop, where no counter overflows.
record Round (s : Counts) (c : ℕ) : Type 0 where
  next : Counts
  result : count s c ≡ some next
  lines : next.nl ≡ s.nl + (if c == newline then 1 else 0)
  chars : next.nc ≡ suc s.nc
  outside_white : is_white c ≡ true → (next.state ≡ State.outside) × (next.nw ≡ s.nw)
  inside_word :
      is_white c ≡ false
      → (next.state ≡ State.inside) × (next.nw ≡ s.nw + (if is_outside s.state then 1 else 0))

increment_if_lem :
    (b : Bool) (n : ℕ) → n < int_max → increment_if b n ≡ some (n + (if b then 1 else 0))
increment_if_lem true n h = increment_lem n h ∙ ap some (omega arith)
increment_if_lem false n h = ap some (omega arith)

count-Round : (s : Counts) (c : ℕ) → s.nc < int_max → s.nl ≤ s.nc → s.nw ≤ s.nc → Round s c
unfolding count
count-Round s c a b d = elim (Bool-cases (is_white c)) [
  | inl e ↦ record {
    next = record {
      state = State.outside;
      nl = s.nl + (if c == newline then 1 else 0);
      nw = s.nw;
      nc = suc s.nc;
    };
    result = rw (increment_lem s.nc a, increment_if_lem (c == newline) s.nl (omega arith), e);
    lines = refl;
    chars = refl;
    outside_white = λ _. (refl, refl);
    inside_word = λ f. cc;
  }
  | inr e ↦ record {
    next = record {
      state = State.inside;
      nl = s.nl + (if c == newline then 1 else 0);
      nw = s.nw + (if is_outside s.state then 1 else 0);
      nc = suc s.nc;
    };
    result = rw (
      increment_lem s.nc a,
      increment_if_lem (c == newline) s.nl (omega arith),
      e,
      increment_if_lem (is_outside s.state) s.nw (omega arith),
    );
    lines = refl;
    chars = refl;
    outside_white = λ f. cc;
    inside_word = λ _. (refl, refl);
  }
]

count_all-Counted :
    (cs : List ℕ) (s : Counts)
    → s.nc + length cs ≤ int_max
    → s.nl ≤ s.nc
    → s.nw ≤ s.nc
    → Counted s cs
unfolding count_all
count_all-Counted [] s a b d = record {
  end = s;
  result = refl;
  lines = omega arith;
  chars = omega arith;
  complete = done s.state;
}
  where
    done : (st : State) → s.nw + carry st [] ≡ s.nw + 0
    done State.inside = omega arith
    done State.outside = omega arith
count_all-Counted (c ∷ cs) s a b d =
    let r = count-Round s c (omega arith) b d in
    let rest =
      count_all-Counted cs r.next (ground (arith, r.chars)) (ground (arith, r.chars, r.lines))
        (small r) in
    record {
      end = rest.end;
      result = rw (r.result, rest.result);
      lines = omega (arith, rest.lines, r.lines);
      chars = omega (arith, rest.chars, r.chars);
      complete = balance r rest;
    }
  where
    small : (r : Round s c) → r.next.nw ≤ r.next.nc
    small r = elim (Bool-cases (is_white c)) [
      | inl e ↦ omega (arith, (r.outside_white e).1, r.chars)
      | inr e ↦ ground (arith, (r.inside_word e).1, r.chars)
    ]

    balance :
        (r : Round s c) (rest : Counted r.next cs)
        → rest.end.nw + carry s.state (c ∷ cs) ≡ s.nw + length (words (c ∷ cs))
    balance r rest = elim (Bool-cases (is_white c)) [
      | inl e ↦ ground (arith, e, (r.outside_white e).0, (r.outside_white e).1, rest.complete)
      | inr e ↦
          ground
            (arith, e, (r.inside_word e).0, (r.inside_word e).1, rest.complete, length-extend c cs)
    ]

-- On an input of at most 2^31 - 1 characters wc.c counts the newlines, the words (the longest runs
-- of characters other than blanks, newlines and tabs) and the characters, and no counter
-- overflows.
pub wc_lem :
    (cs : List ℕ)
    → length cs ≤ int_max
    → (end : Counts) × (wc cs ≡ some end)
      × (end.nl ≡ newlines cs)
      × (end.nw ≡ length (words cs))
      × (end.nc ≡ length cs)
wc_lem cs h =
    let r =
      count_all-Counted cs (record { state = State.outside; nl = 0; nw = 0; nc = 0 }) (omega arith)
        (omega arith) (omega arith) in
    (r.end, r.result, omega (arith, r.lines), omega (arith, r.complete), omega (arith, r.chars))
