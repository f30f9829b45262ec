-- ===== src/Multithreading/Race/Tests.antt =====
-- The outcomes of race.c at concrete numbers.
use operating_systems_and_ne.Base.{◌≡◌, arith}
use operating_systems_and_ne.Base.Int.{pos, negsuc}
use operating_systems_and_ne.Multithreading.Race.{Sale, start}
use operating_systems_and_ne.Multithreading.Race.Outcomes.{
  Reach, AllReturned, after, oversold, oversell,
}

abbrev oversold_by_one : Sale
oversold_by_one = after oversell (start (pos 1))

oversold_example : (s : Sale) × Reach (pos 3) s × AllReturned s × (s.ntickets ≡ negsuc 3)
oversold_example = oversold 3 (omega arith)
