-- ===== src/Examples/Topology.antt =====
-- Ranges and partitions, on small data.
use mrc.Prelude.{ℕ, refl, List, [], ◌∷◌}
use mrc.Prelude.Maps.{Map}
use mrc.Ranges.{Sorting}

-- Sorts the values that come below, which are sorted.
abbrev std : Sorting
std = record { sort = λ l. l; same_elements = λ n l. refl }

abbrev values : List ℕ
values = 0 ∷ 1 ∷ 2 ∷ 5 ∷ 5 ∷ 6 ∷ []

-- The overlap of a set of CPUs with a device is their number.
abbrev overlap : ℕ → ℕ → ℕ
overlap cpus device = device

abbrev devices : Map ℕ
devices = (0, 8) ∷ []
