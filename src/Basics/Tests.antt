-- ===== src/Basics/Tests.antt =====
-- Witnesses of the theorems on wc.c and dc.c.
use operating_systems_and_ne.Base.{ℕ, ◌≡◌, refl, ◌<◌, ◌+◌, ◌==◌, some, List, length, arith}
use operating_systems_and_ne.Os.{codes}
use operating_systems_and_ne.Basics.{increment, is_white, Counts, Digits, wc, dc, count, count_all}
use operating_systems_and_ne.Basics.WordCount.{newlines, words, wc_lem}
use operating_systems_and_ne.Basics.DigitCount.{count_where, is_other, total, dc_lem}

abbrev sample : List ℕ
sample = codes "a bc\n 12\n"

wc-sample : (c : Counts) × (wc sample ≡ some c) × (c.nl ≡ 2) × (c.nw ≡ 3) × (c.nc ≡ 9)
unfolding count count_all increment is_white
wc-sample = (_, refl, refl, refl, refl)

wc_lem_example :
    (end : Counts) × (wc sample ≡ some end)
    × (end.nl ≡ newlines sample)
    × (end.nw ≡ length (words sample))
    × (end.nc ≡ length sample)
wc_lem_example = wc_lem sample (omega arith)

dc_lem_example :
    (end : Digits) × (dc sample ≡ some end)
    × ((d : ℕ) → d < 10 → end.ndigit d ≡ count_where (λ c. c == d + 48) sample)
    × (end.nwhite ≡ count_where is_white sample)
    × (end.nother ≡ count_where is_other sample)
    × (total end ≡ length sample)
dc_lem_example = dc_lem sample (omega arith)
