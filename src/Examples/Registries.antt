-- ===== src/Examples/Registries.antt =====
-- The module registry on small data.
use mrc.Prelude.{ℕ, refl, false, List, [], ◌∷◌}
use mrc.Modules.{Sorting, Registry, initial, Call, registering, unregistering, perform_all}
use mrc.Modules.Consistency.{Consistent, registry-Consistent}

abbrev version : ℕ × ℕ × ℕ
version = (23, 1, 0)

abbrev std : Sorting
std = record { sort = λ l. l; same_elements = λ n l. refl }

abbrev release : List ℕ
release = 23 ∷ 1 ∷ 0 ∷ []

abbrev empty_registry : Registry ℕ
empty_registry = initial

abbrev five : ℕ
five = 5

-- The constructor is a number.
abbrev calls : List (Call ℕ)
calls =
    registering "source" "nodes" (23 ∷ 1 ∷ 0 ∷ []) 5
    ∷ registering "sink" "nodes" (23 ∷ 1 ∷ 0 ∷ []) 6
    ∷ registering "sink" "nodes" (22 ∷ 1 ∷ 0 ∷ []) 7
    ∷ unregistering "source" "nodes" false
    ∷ []

registry-Consistent_example : Consistent (perform_all version std calls initial)
registry-Consistent_example = registry-Consistent version std calls
