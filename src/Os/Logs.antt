-- ===== src/Os/Logs.antt =====
-- What a log says about one descriptor.
use operating_systems_and_ne.Base.{ℕ, ◌+◌, List, [], ◌∷◌, ◌++◌, ◌==◌, if◌then◌else◌}
use operating_systems_and_ne.Os.{Bytes, Fd, Event, was_read, was_written, was_closed}

abbrev pub part_read : Fd → Event → Bytes
part_read fd (was_read g bs) = if g == fd then bs else []
part_read fd e = []

abbrev pub part_written : Fd → Event → Bytes
part_written fd (was_written g bs) = if g == fd then bs else []
part_written fd e = []

-- All that was read from a descriptor, in order.
abbrev pub read_from : Fd → List Event → Bytes
read_from fd [] = []
read_from fd (e ∷ log) = read_from fd log ++ part_read fd e

-- All that was written to a descriptor, in order.
abbrev pub written_to : Fd → List Event → Bytes
written_to fd [] = []
written_to fd (e ∷ log) = written_to fd log ++ part_written fd e

-- How often a descriptor was closed.
abbrev pub closes : Fd → List Event → ℕ
closes fd [] = 0
closes fd (was_closed g ∷ log) = (if g == fd then 1 else 0) + closes fd log
closes fd (e ∷ log) = closes fd log
