-- ===== src/Filesystem/Copy/Correct.antt =====
-- `copy` as a whole, on every list of answers.
use operating_systems_and_ne.Base.{
  ℕ, zero, suc, ◌≤◌, ◌<◌, Bool, true, false, Option, none, some, [], ◌∷◌, length, drop, arith,
}
use native.Mathlib.Nat.{le_refl}
use operating_systems_and_ne.Os.{Bytes, Fd, World}
use operating_systems_and_ne.Os.Fuel.{
  Fueled, Fueled-bind, Fueled-read, Fueled-write, add_int-Fueled,
}
use operating_systems_and_ne.Filesystem.Copy.{
  buff_size, while_left, after_write, write_loop, after_read, after_round, copy_loop, copy,
}
use operating_systems_and_ne.Filesystem.Copy.Loops.{Copied, copy_loop-Copied}

write_loop-Fueled :
    (f n : ℕ) (dstd : Fd) (bs : Bytes) (w : World)
    → length w.answers < f
    → length w.answers ≤ n
    → Fueled n (write_loop f dstd bs w)
unfolding write_loop
write_loop-Fueled zero n dstd bs w l m = absurd (omega arith)
write_loop-Fueled (suc f) n dstd bs w l m =
    Fueled-write dstd bs n w (after_write (write_loop f dstd) bs) m λ a v less.
      after a v (λ r. write_loop-Fueled f n dstd r v (omega arith) (omega arith)) (omega arith)
  where
    after :
        (a : Option ℕ) (v : World)
        → ((r : Bytes) → Fueled n (write_loop f dstd r v))
        → length v.answers ≤ n
        → Fueled n (after_write (write_loop f dstd) bs a v)
    after none v ih m = m
    after (some k) v ih m = left (drop k bs)
      where
        left : (r : Bytes) → Fueled n (while_left (write_loop f dstd) r v)
        left [] = m
        left (b ∷ r) = ih (b ∷ r)

copy_loop-Fueled :
    (f n : ℕ) (srcd dstd : Fd) (total : ℕ) (w : World)
    → length w.answers < f
    → length w.answers ≤ n
    → Fueled n (copy_loop f srcd dstd total w)
unfolding copy_loop
copy_loop-Fueled zero n srcd dstd total w l m = absurd (omega arith)
copy_loop-Fueled (suc f) n srcd dstd total w l m =
    Fueled-read srcd buff_size n w (after_read (copy_loop f srcd dstd) dstd total) m λ a v less.
      after a v less (λ t u small. copy_loop-Fueled f n srcd dstd t u (omega arith) (omega arith))
  where
    after :
        (a : Option Bytes) (v : World)
        → length v.answers < length w.answers
        → ((t : ℕ) (u : World)
            → length u.answers < length w.answers
            → Fueled n (copy_loop f srcd dstd t u))
        → Fueled n (after_read (copy_loop f srcd dstd) dstd total a v)
    after none v less ih = omega arith
    after (some []) v less ih = omega arith
    after (some (b ∷ bs)) v less ih =
        Fueled-bind (length v.answers) n _ _
          (add_int-Fueled total (length (b ∷ bs)) (length v.answers) v (le_refl _))
          λ t u small.
            Fueled-bind (length u.answers) n _ _
              (write_loop-Fueled (suc (length u.answers)) (length u.answers) dstd (b ∷ bs) u
                (le_refl _) (le_refl _))
              λ written x smaller. round written t x (omega arith)
      where
        round :
            (written : Bool) (t : ℕ) (x : World)
            → length x.answers < length w.answers
            → Fueled n (after_round (copy_loop f srcd dstd) t written x)
        round true t x small = ih t x small
        round false t x small = omega arith

-- `copy(srcd, dstd)`, whatever the kernel answers. If it returns a number, everything that it read
-- from `srcd` was written to `dstd` in order, the number counts these bytes, and its last call was
-- a read that met the end of the file. If it returns -1, what was written is a beginning of what
-- was read. It never exits, and its loops never run out of fuel.
pub copy_lem :
    (srcd dstd : Fd) (w : World)
    → Copied srcd dstd 0 w (copy srcd dstd w) × Fueled (length w.answers) (copy srcd dstd w)
unfolding copy
copy_lem srcd dstd w = (
  copy_loop-Copied (suc (length w.answers)) srcd dstd 0 w,
  copy_loop-Fueled (suc (length w.answers)) (length w.answers) srcd dstd 0 w (le_refl _)
      (le_refl _),
)
