-- ===== src/Filesystem/Copy/Enough.antt =====
-- copy.c does come to an end: a run in which no call fails.
use native.Mathlib.Nat.{le_refl}
use Prim.Native.Nat.{min}
use operating_systems_and_ne.Base.{
  ℕ, zero, suc, ◌+◌, ◌≤◌, ◌<◌, ◌≡◌, refl, ap, ◌∙◌, Bool, true, false, some, List, [], ◌∷◌, length,
  take, drop, length-take, ◌++◌, length-append, arith, ltb,
}
use operating_systems_and_ne.Os.{
  Bytes, Fd, Answer, gives, brings, Event, was_read, was_written, World, returns, then_run, int_max,
  read, write, add_int, with_fuel, ◌>>=◌, M,
}
use operating_systems_and_ne.Filesystem.Copy.{while_left, write_loop, after_round, copy_loop, copy}

-- A piece of the file, with at least one byte, and how the kernel takes it: `k ∷ ks` says that a write
-- takes `k + 1` bytes, or all if there are fewer; once the list is used up a write takes all.
pub record Piece : Type 0 where
  pub head : ℕ
  pub tail : Bytes
  pub counts : List ℕ

-- What the writes of these bytes give.
abbrev pub takes : List ℕ → Bytes → List Answer
takes ks [] = []
takes [] (b ∷ bs) = gives (suc (length bs)) ∷ []
takes (k ∷ ks) (b ∷ bs) = gives (suc k) ∷ takes ks (drop k bs)

-- The kernel brings the pieces of the file, cut to the buffer, takes each in one write or in several, and
-- then meets the end of the file.
abbrev pub pieces : List Piece → List Answer
pieces [] = brings [] ∷ []
pieces (p ∷ ps) =
    brings (p.head ∷ p.tail) ∷ (takes p.counts (p.head ∷ take 1023 p.tail) ++ pieces ps)

drop_all : (bs : Bytes) → drop (length bs) bs ≡ []
drop_all [] = refl
drop_all (b ∷ bs) = drop_all bs

drop-min : (k : ℕ) (bs : Bytes) → drop (min k (length bs)) bs ≡ drop k bs
drop-min zero bs = let none_left : min 0 (length bs) ≡ 0 = omega arith in rw none_left refl
drop-min (suc k) [] = let none_left : min (suc k) 0 ≡ 0 = omega arith in rw none_left refl
drop-min (suc k) (b ∷ bs) =
    let less : min (suc k) (suc (length bs)) ≡ suc (min k (length bs)) = omega arith in
    rw less (drop-min k bs)

-- Where each write takes something, the loop writes on until nothing is left.
write_loop-takes :
    (ks : List ℕ) (f : ℕ) (dstd : Fd) (b : ℕ) (bs : Bytes) (rest : List Answer) (e : ℕ)
    (l : List Event)
    → length (takes ks (b ∷ bs)) ≤ f
    → (v : List Event) × (write_loop f dstd
          (b ∷ bs)
          (record { answers = takes ks (b ∷ bs) ++ rest; errno = e; log = l })
        ≡ returns true (record { answers = rest; errno = e; log = v }))
unfolding write_loop write
write_loop-takes [] zero dstd b bs rest e l h = absurd (omega arith)
write_loop-takes (k ∷ ks) zero dstd b bs rest e l h = absurd (omega arith)
write_loop-takes [] (suc f) dstd b bs rest e l h =
    let whole : min (suc (length bs)) (suc (length bs)) ≡ suc (length bs) = omega arith in
    (was_written dstd (take (suc (length bs)) (b ∷ bs)) ∷ l, rw (whole, drop_all bs) refl)
write_loop-takes (k ∷ ks) (suc f) dstd b bs rest e l h =
    let (v, written) =
      left (drop k bs) (omega (arith, h))
        (λ c cs m. write_loop-takes ks f dstd c cs rest e note_write m) in
    (v, rw (drop-min (suc k) (b ∷ bs)) written)
  where
    note_write : List Event
    note_write = was_written dstd (take (min (suc k) (suc (length bs))) (b ∷ bs)) ∷ l

    left :
        (r : Bytes)
        → length (takes ks r) ≤ f
        → ((c : ℕ) (cs : Bytes)
            → length (takes ks (c ∷ cs)) ≤ f
            → (v : List Event) × (write_loop f dstd
                  (c ∷ cs)
                  (record { answers = takes ks (c ∷ cs) ++ rest; errno = e; log = note_write })
                ≡ returns true (record { answers = rest; errno = e; log = v })))
        → (v : List Event) × (while_left
              (write_loop f dstd)
              r
              (record { answers = takes ks r ++ rest; errno = e; log = note_write })
            ≡ returns true (record { answers = rest; errno = e; log = v }))
    left [] m ih = (_, refl)
    left (c ∷ cs) m ih = ih c cs m

add_int-fits : (a b : ℕ) (w : World) → a + b ≤ int_max → add_int a b w ≡ returns (a + b) w
unfolding add_int
add_int-fits a b w h = let fits : ltb int_max (a + b) ≡ false = ground arith in rw fits refl

-- One piece, cut to the buffer.
module _ (f : ℕ) (srcd dstd : Fd) (p : Piece) (rest : List Answer) (e : ℕ) (l : List Event) where
  abbrev got : Bytes
  got = p.head ∷ take 1023 p.tail

  abbrev before_read : World
  before_read = record {
    answers = brings (p.head ∷ p.tail) ∷ (takes p.counts got ++ rest);
    errno = e;
    log = l;
  }

  abbrev came : World
  came = record { answers = takes p.counts got ++ rest; errno = e; log = was_read srcd got ∷ l }

  copy_loop-piece :
      (total : ℕ)
      → total + length got ≤ int_max
      → (v : List Event) × (copy_loop (suc f) srcd dstd total before_read
          ≡ copy_loop f srcd dstd
              (total + length got)
              (record { answers = rest; errno = e; log = v }))
  unfolding copy_loop read
  copy_loop-piece total fits =
      let (v, taken) =
        write_loop-takes p.counts (suc (length came.answers)) dstd p.head (take 1023 p.tail) rest e
          (was_read srcd got ∷ l) (omega (arith, length-append (takes p.counts got) rest)) in
      (
        v,
        added
            ∙ ap (λ o. then_run o (after_round (copy_loop f srcd dstd) (total + length got))) taken,
      )
    where
      write_got : M Bool
      write_got = with_fuel (λ k. write_loop k dstd got)

      added :
          copy_loop (suc f) srcd dstd total before_read
          ≡ (write_got >>= after_round (copy_loop f srcd dstd) (total + length got)) came
      added =
          ap (λ o. then_run o (λ t. write_got >>= after_round (copy_loop f srcd dstd) t))
            (add_int-fits total (length got) came fits)

-- How many bytes the pieces have.
abbrev pub size : List Piece → ℕ
size [] = 0
size (p ∷ ps) = suc (length p.tail) + size ps

copy_loop-returns :
    (ps : List Piece) (f : ℕ) (srcd dstd : Fd) (total e : ℕ) (l : List Event)
    → length (pieces ps) < f
    → total + size ps ≤ int_max
    → (n : ℕ) × (v : World) × (copy_loop f srcd dstd total
          (record { answers = pieces ps; errno = e; log = l })
        ≡ returns (some n) v)
unfolding copy_loop read
copy_loop-returns ps zero srcd dstd total e l less fits = absurd (omega arith)
copy_loop-returns [] (suc f) srcd dstd total e l less fits = (_, _, refl)
copy_loop-returns (p ∷ ps) (suc f) srcd dstd total e l less fits =
    let short = length-take 1023 p.tail in
    let (l', piece) = copy_loop-piece f srcd dstd p (pieces ps) e l total (omega (arith, short)) in
    let (n, v, h) =
      copy_loop-returns ps f srcd dstd (total + length (p.head ∷ take 1023 p.tail)) e l'
        (omega (arith, length-append (takes p.counts (p.head ∷ take 1023 p.tail)) (pieces ps)))
        (omega (arith, short)) in
    (n, v, piece ∙ h)

-- `copy` returns the count if no call fails and each write takes something.
pub copy-returns :
    (ps : List Piece) (srcd dstd : Fd) (e : ℕ) (l : List Event)
    → size ps ≤ int_max
    → (n : ℕ) × (v : World) × (copy srcd dstd (record { answers = pieces ps; errno = e; log = l })
        ≡ returns (some n) v)
unfolding copy
copy-returns ps srcd dstd e l fits =
    copy_loop-returns ps (suc (length (pieces ps))) srcd dstd 0 e l (le_refl _)
      (omega (arith, fits))
