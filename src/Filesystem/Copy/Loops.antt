-- ===== src/Filesystem/Copy/Loops.antt =====
-- What the loops of `copy` write.
use operating_systems_and_ne.Base.{
  ℕ, zero, suc, ◌+◌, ◌≡◌, refl, Bool, true, false, Option, none, some, List, [], ◌∷◌, ◌++◌, length,
  take, drop, arith, take-append-drop, take-add, take-all, ltb, Bool-cases, inl, inr, length-append,
  sym, ap, ◌∙◌,
}
use mathlib.Core.Path.{subst}
use mathlib.Core.List.{append-nil, append_assoc}
use operating_systems_and_ne.Os.{
  Bytes, Fd, Event, was_read, was_written, World, Outcome, returns, exits, waits, undefined,
  no_fuel, becomes, then_run, int_max, add_int,
}
use operating_systems_and_ne.Os.Logs.{read_from, written_to}
use operating_systems_and_ne.Os.Calls.{
  Logged, Read, read-Read, Write, write-Write, Logged-read, Logged-written, part_written-same,
  part_read-same,
}
use operating_systems_and_ne.Filesystem.Copy.{
  buff_size, while_left, after_round, after_write, after_read, write_loop, copy_loop,
}

-- After the write loop over `bs`: on `true` exactly `bs` was written to `dstd`, on `false` a
-- beginning of it, and nothing was read.
abbrev pub Wrote : Fd → Bytes → World → Outcome Bool → Type 0
Wrote dstd bs w (returns true w') =
    (written_to dstd w'.log ≡ written_to dstd w.log ++ bs)
    × ((fd : Fd) → read_from fd w'.log ≡ read_from fd w.log)
Wrote dstd bs w (returns false w') =
    ((n : ℕ) × (written_to dstd w'.log ≡ written_to dstd w.log ++ take n bs))
    × ((fd : Fd) → read_from fd w'.log ≡ read_from fd w.log)
Wrote dstd bs w (exits code w') = ⊥
Wrote dstd bs w _ = Unit

-- A write of the first `k` bytes, and then the rest.
module _ (dstd : Fd) (bs : Bytes) (k : ℕ) {w w' : World}
    (l : Logged (was_written dstd (take k bs)) w w') where
  pub wrote : written_to dstd w'.log ≡ written_to dstd w.log ++ take k bs
  wrote =
      Logged-written l dstd
      ∙ ap (λ r. written_to dstd w.log ++ r) (part_written-same dstd (take k bs))

  pub no_read : (fd : Fd) → read_from fd w'.log ≡ read_from fd w.log
  no_read fd = Logged-read l fd ∙ append-nil _

  pub Wrote-more : (o : Outcome Bool) → Wrote dstd (drop k bs) w' o → Wrote dstd bs w o
  Wrote-more (returns true v) (h, r) =
      (simp (h, wrote, append_assoc, take-append-drop), λ fd. r fd ∙ no_read fd)
  Wrote-more (returns false v) ((n, h), r) =
      ((k + n, simp (h, wrote, append_assoc, take-add)), λ fd. r fd ∙ no_read fd)
  Wrote-more (exits code v) h = h
  Wrote-more (waits v) h = tt
  Wrote-more (undefined v) h = tt
  Wrote-more (becomes file args v) h = tt
  Wrote-more (no_fuel v) h = tt

write_loop-Wrote :
    (f : ℕ) (dstd : Fd) (bs : Bytes) (w : World) → Wrote dstd bs w (write_loop f dstd bs w)
unfolding write_loop
write_loop-Wrote zero dstd bs w = tt
write_loop-Wrote (suc f) dstd bs w =
    go (write-Write dstd bs w) (λ k. write_loop-Wrote f dstd (drop k bs))
  where
    go :
        {o : Outcome (Option ℕ)}
        → Write dstd bs w o
        → ((k : ℕ) (w' : World) → Wrote dstd (drop k bs) w' (write_loop f dstd (drop k bs) w'))
        → Wrote dstd bs w (then_run o (after_write (write_loop f dstd) bs))
    go Write.blocks ih = tt
    go (Write.refused e l) ih = ((0, Logged-written l dstd), λ fd. Logged-read l fd ∙ append-nil _)
    go (Write.took k {w'} fits l) ih = rest (drop k bs) refl
      where
        rest : (r : Bytes) → drop k bs ≡ r → Wrote dstd bs w (while_left (write_loop f dstd) r w')
        rest [] e = (rw (wrote dstd bs k l, take-all k bs e), no_read dstd bs k l)
        rest (b ∷ r) e =
            Wrote-more dstd bs k l _
              (subst (λ z. Wrote dstd (drop k bs) w' (write_loop f dstd z w')) e (ih k w'))

-- After `copy` with `total_bytes` so far: on a number, all that it read was written, the number
-- counts it, and the last read met the end of the file. On -1 a beginning of what it read was
-- written.
abbrev pub Copied : Fd → Fd → ℕ → World → Outcome (Option ℕ) → Type 0
Copied srcd dstd total w (returns (some n) w') =
    (bs : Bytes) × (read_from srcd w'.log ≡ read_from srcd w.log ++ bs)
    × (written_to dstd w'.log ≡ written_to dstd w.log ++ bs)
    × (n ≡ total + length bs)
    × ((l : List Event) × (w'.log ≡ was_read srcd [] ∷ l))
Copied srcd dstd total w (returns none w') =
    (bs cs : Bytes) × (read_from srcd w'.log ≡ read_from srcd w.log ++ (bs ++ cs))
    × (written_to dstd w'.log ≡ written_to dstd w.log ++ bs)
Copied srcd dstd total w (exits code w') = ⊥
Copied srcd dstd total w _ = Unit

-- A round that copied `bs`, and then the rest.
Copied-more :
    (srcd dstd : Fd) (total : ℕ) (bs : Bytes) (w w' : World) (o : Outcome (Option ℕ))
    → read_from srcd w'.log ≡ read_from srcd w.log ++ bs
    → written_to dstd w'.log ≡ written_to dstd w.log ++ bs
    → Copied srcd dstd (total + length bs) w' o
    → Copied srcd dstd total w o
Copied-more srcd dstd total bs w w' (returns (some n) v) r h (cs, rs, hs, e, last) = (
  bs ++ cs,
  simp (rs, r, append_assoc),
  simp (hs, h, append_assoc),
  omega (arith, e, length-append {0} bs cs),
  last,
)
Copied-more srcd dstd total bs w w' (returns none v) r h (cs, ds, rs, hs) =
    (bs ++ cs, ds, simp (rs, r, append_assoc), simp (hs, h, append_assoc))
Copied-more srcd dstd total bs w w' (exits code v) r h c = c
Copied-more srcd dstd total bs w w' (waits v) r h c = tt
Copied-more srcd dstd total bs w w' (undefined v) r h c = tt
Copied-more srcd dstd total bs w w' (becomes file args v) r h c = tt
Copied-more srcd dstd total bs w w' (no_fuel v) r h c = tt

pub copy_loop-Copied :
    (f : ℕ) (srcd dstd : Fd) (total : ℕ) (w : World)
    → Copied srcd dstd total w (copy_loop f srcd dstd total w)
unfolding copy_loop add_int
copy_loop-Copied zero srcd dstd total w = tt
copy_loop-Copied (suc f) srcd dstd total w =
    go (read-Read srcd buff_size w) (copy_loop-Copied f srcd dstd)
  where
    go :
        {o : Outcome (Option Bytes)}
        → Read srcd buff_size w o
        → ((total : ℕ) (w : World) → Copied srcd dstd total w (copy_loop f srcd dstd total w))
        → Copied srcd dstd total w (then_run o (after_read (copy_loop f srcd dstd) dstd total))
    go Read.blocks ih = tt
    go (Read.refused e l) ih = ([], [], Logged-read l srcd, Logged-written l dstd)
    go (Read.got [] {w'} fits l) ih = (
      [],
      Logged-read l srcd ∙ ap (λ r. read_from srcd w.log ++ r) (part_read-same srcd []),
      Logged-written l dstd,
      omega arith,
      (w.log, l.events),
    )
    go (Read.got (b ∷ bs) {w'} fits l) ih =
        elim (Bool-cases (ltb int_max (total + length (b ∷ bs)))) [
          | inl e ↦ rw (e, add_int) tt
          | inr e ↦
              rw (e, add_int)
                (round _ (write_loop-Wrote (suc (length w'.answers)) dstd (b ∷ bs) w'))
        ]
      where
        arrived : read_from srcd w'.log ≡ read_from srcd w.log ++ (b ∷ bs)
        arrived =
            Logged-read l srcd ∙ ap (λ r. read_from srcd w.log ++ r) (part_read-same srcd (b ∷ bs))

        unwritten : written_to dstd w'.log ≡ written_to dstd w.log
        unwritten = Logged-written l dstd ∙ append-nil _

        round :
            (o : Outcome Bool)
            → Wrote dstd (b ∷ bs) w' o
            → Copied srcd dstd total w
                (then_run o (after_round (copy_loop f srcd dstd) (total + length (b ∷ bs))))
        round (returns true v) (h, r) =
            Copied-more srcd dstd total (b ∷ bs) w v _ (r srcd ∙ arrived)
              (h ∙ ap (λ x. x ++ (b ∷ bs)) unwritten) (ih (total + length (b ∷ bs)) v)
        round (returns false v) ((n, h), r) = (
          take n (b ∷ bs),
          drop n (b ∷ bs),
          r srcd
              ∙ arrived
              ∙ ap (λ x. read_from srcd w.log ++ x) (sym (take-append-drop n (b ∷ bs))),
          h ∙ ap (λ x. x ++ take n (b ∷ bs)) unwritten,
        )
        round (exits code v) h = h
        round (waits v) h = tt
        round (undefined v) h = tt
        round (becomes file args v) h = tt
        round (no_fuel v) h = tt
