-- ===== src/Engines.antt =====
-- cpp/mrc/src/internal/system/engine_factory_cpu_sets.cpp: which CPUs of a partition each engine group
-- gets, with the options of cpp/mrc/src/public/options/engine_groups.cpp. The bitmaps are those of hwloc,
-- which also gives the cores of a set; a `std::size_t` is a 64-bit word. The strings are compared as the
-- keys of a `std::map` are.
pub mod Needs
pub mod Placement
pub mod Sharing
pub mod Allocation
pub mod Division
pub mod Factories
use Prim.Native.Nat.{max}
use Prim.Native.String.{String, compare}
use text.Mathlib.Text.{◌==◌ as str_eq, is_lt}
use mrc.Prelude.{
  ℕ, zero, suc, ◌+◌, ◌-◌, ◌%◌, ◌^◌, ◌≡◌, Bool, true, false, not, ◌&&◌, ◌||◌, Option, none, some,
  List, [], ◌∷◌, ltb, ◌==◌, if◌then◌else◌, foldl,
}
use mrc.Prelude.Maps.{Map, lookup, assign}
use mrc.Modules.{TextMap, find, put}
use mrc.Bitmap.{Hwloc, on, first, pop}

pub data EngineType : Type 0 where
  fiber thread process : EngineType

pub record EngineFactoryOptions : Type 0 where
  pub cpu_count : ℕ
  pub engine_type : EngineType
  pub reusable : Bool
  pub allow_overlap : Bool

-- The groups are in the order of iteration.
pub record EngineGroups : Type 0 where
  pub dedicated_main_thread : Bool
  pub dedicated_network_thread : Bool
  pub ignore_hyper_threads : Bool
  pub default_engine_type : EngineType
  pub engine_resource_groups : TextMap EngineFactoryOptions

pub record Options : Type 0 where
  pub architect_url : String
  pub engine_factories : EngineGroups

module _ {V : Type 0} where
  unfoldable pub place : String → V → TextMap V → TextMap V
  place k v [] = (k, v) ∷ []
  place k v ((j, w) ∷ m) =
      let rest = place k v m in if is_lt (compare k j) then (k, v) ∷ (j, w) ∷ m else (j, w) ∷ rest

  -- `m[k] = v`, in the order of the keys.
  unfoldable pub set_entry : String → V → TextMap V → TextMap V
  unfolding place
  set_entry k v m = elim (find k m) [ none ↦ place k v m | some w ↦ put k v m ]

unfoldable pub set_engine_factory_options :
    String → EngineFactoryOptions → EngineGroups → EngineGroups
unfolding set_entry
set_engine_factory_options group_name options g = record g {
  engine_resource_groups = set_entry group_name options g.engine_resource_groups;
}

-- `none` is the runtime_error.
unfoldable pub engine_group_options : String → EngineGroups → Option EngineFactoryOptions
engine_group_options name g = find name g.engine_resource_groups

unfoldable pub set_dedicated_main_thread : Bool → EngineGroups → EngineGroups
set_dedicated_main_thread b g = record g { dedicated_main_thread = b }

unfoldable pub set_dedicated_network_thread : Bool → EngineGroups → EngineGroups
set_dedicated_network_thread b g = record g { dedicated_network_thread = b }

unfoldable pub set_default_engine_type : EngineType → EngineGroups → EngineGroups
set_default_engine_type t g = record g { default_engine_type = t }

unfoldable pub set_ignore_hyper_threads : Bool → EngineGroups → EngineGroups
set_ignore_hyper_threads b g = record g { ignore_hyper_threads = b }

-- The entry of `main` and that of `mrc_network`.
abbrev pub single_fiber : EngineFactoryOptions
single_fiber = record {
  cpu_count = 1;
  engine_type = EngineType.fiber;
  reusable = true;
  allow_overlap = false;
}

abbrev pub uses_network : Options → Bool
uses_network options = not (str_eq options.architect_url "")

abbrev pub specialized_network : Options → Bool
specialized_network options =
    uses_network options && options.engine_factories.dedicated_network_thread

unfoldable pub engine_groups_map : Options → TextMap EngineFactoryOptions
unfolding set_entry
engine_groups_map options =
    let g = options.engine_factories in
    let with_main =
      if g.dedicated_main_thread
      then set_entry "main" single_fiber g.engine_resource_groups
      else g.engine_resource_groups in
    if specialized_network options
    then set_entry "mrc_network" single_fiber with_main
    else with_main

-- What the groups need, by the number of the engine's type.
pub record Demand : Type 0 where
  pub engine_cpu_count : Map ℕ
  pub shared_cpu_count : ℕ
  pub shared_cpus_has_fibers : Bool

abbrev pub number : EngineType → ℕ
number EngineType.fiber = 0
number EngineType.thread = 1
number EngineType.process = 2

abbrev pub or_zero : Option ℕ → ℕ
or_zero none = 0
or_zero (some n) = n

unfoldable pub count_group : EngineFactoryOptions → Demand → Demand
count_group o d =
    let k = number o.engine_type in
    if o.allow_overlap
    then record d {
      shared_cpu_count = max d.shared_cpu_count o.cpu_count;
      shared_cpus_has_fibers = if k == 0 then true else d.shared_cpus_has_fibers;
    }
    else record d {
      engine_cpu_count =
          assign k ((or_zero (lookup k d.engine_cpu_count) + o.cpu_count) % 2 ^ 64)
            d.engine_cpu_count;
    }

unfoldable pub count_groups : TextMap EngineFactoryOptions → Demand → Demand
unfolding count_group
count_groups [] d = d
count_groups ((k, o) ∷ m) d = count_groups m (count_group o d)

unfoldable pub add_counts : Map ℕ → ℕ → ℕ
add_counts [] n = n
add_counts ((k, c) ∷ m) n = add_counts m ((n + c) % 2 ^ 64)

abbrev pub no_demand : Demand
no_demand = record { engine_cpu_count = []; shared_cpu_count = 0; shared_cpus_has_fibers = false }

unfoldable pub min_cpu_count : Demand → ℕ
unfolding add_counts
min_cpu_count d = add_counts d.engine_cpu_count d.shared_cpu_count

pub record EngineFactoryCpuSets (B : Type 0) : Type 0 where
  pub fiber_cpu_sets : TextMap B
  pub thread_cpu_sets : TextMap B
  pub reusable : TextMap Bool
  pub shared_cpus_set : B
  pub shared_cpus_has_fibers : Bool

-- `died` is a failed check, `insufficient` the runtime_error, `out_of_range` the exception of
-- `std::map::at`, and `unfinished` a loop that goes on.
pub data Generated (B : Type 0) : Type 0 where
  died insufficient out_of_range unfinished : Generated B
  generated : EngineFactoryCpuSets B → Generated B

module _ {B : Type 0} where
  -- A set is kept with the sets of its engine's type.
  unfoldable pub keep : EngineType → String → B → EngineFactoryCpuSets B → EngineFactoryCpuSets B
  keep EngineType.fiber name s c = record c { fiber_cpu_sets = put name s c.fiber_cpu_sets }
  keep EngineType.thread name s c = record c { thread_cpu_sets = put name s c.thread_cpu_sets }
  keep EngineType.process name s c = c

  unfoldable pub set_reusable : String → Bool → EngineFactoryCpuSets B → EngineFactoryCpuSets B
  set_reusable name b c = record c { reusable = put name b c.reusable }

  unfoldable pub is_resuable : String → EngineFactoryCpuSets B → Option Bool
  is_resuable name c = find name c.reusable

module _ {B : Type 0} (h : Hwloc B) where
  -- The set of `main`, unless it has a group of its own.
  unfoldable pub place_main : Options → B → EngineFactoryCpuSets B → EngineFactoryCpuSets B
  unfolding keep set_reusable
  place_main options default_set c =
      let with_main =
        if options.engine_factories.dedicated_main_thread
        then c
        else keep EngineType.fiber "main" (on h (first h default_set) h.alloc) c in
      set_reusable "main" true (set_reusable "default" true with_main)

  -- The set of `mrc_network`, when it shares that of `main`; `none` is the exception of `at`.
  unfoldable pub place_network : Options → EngineFactoryCpuSets B → Option (EngineFactoryCpuSets B)
  unfolding keep set_reusable
  place_network options c =
      if uses_network options && not (specialized_network options)
      then elim (find "main" c.fiber_cpu_sets) [
        | none ↦ none
        | some s ↦ some (set_reusable "mrc_network" true (keep EngineType.fiber "mrc_network" s c))
      ]
      else some c

  -- The sets of the groups that do not overlap, and the bits that are left; `none` is a failed check.
  unfoldable pub place_dedicated :
      TextMap EngineFactoryOptions
      → EngineFactoryCpuSets B
      → B
      → Option (EngineFactoryCpuSets B × B)
  unfolding keep set_reusable
  place_dedicated [] c remaining = some (c, remaining)
  place_dedicated ((k, o) ∷ m) c remaining =
      let named = set_reusable k o.reusable c in
      let skipped = place_dedicated m named remaining in
      if o.allow_overlap then skipped else elim (pop h o.cpu_count remaining) [
        | none ↦ none
        | some (this_set, left) ↦ place_dedicated m (keep o.engine_type k this_set named) left
      ]

  -- The next bit of the set, from its start again after its end.
  unfoldable pub next_shared : ℕ → Option ℕ → B → Option ℕ
  next_shared zero idx b = none
  next_shared (suc fuel) idx b = elim (h.next idx b) [
    | none ↦ next_shared fuel none b
    | some i ↦ some i
  ]

  unfoldable pub take_shared : ℕ → Option ℕ → B → B → Option (Option ℕ × B)
  unfolding next_shared
  take_shared zero idx b this_set = some (idx, this_set)
  take_shared (suc n) idx b this_set = elim (next_shared 2 idx b) [
    | none ↦ none
    | some i ↦ take_shared n (some i) b (on h i this_set)
  ]

  -- The sets of the groups that overlap, out of the shared set.
  unfoldable pub place_overlapping :
      TextMap EngineFactoryOptions
      → Option ℕ
      → B
      → EngineFactoryCpuSets B
      → Option (EngineFactoryCpuSets B)
  unfolding take_shared keep
  place_overlapping [] idx b c = some c
  place_overlapping ((k, o) ∷ m) idx b c =
      let skipped = place_overlapping m idx b c in
      if o.allow_overlap
      then elim (take_shared o.cpu_count idx b h.alloc) [
        | none ↦ none
        | some (idx', this_set) ↦ place_overlapping m idx' b (keep o.engine_type k this_set c)
      ]
      else skipped

  -- `cores` are the indices of the cores inside a set.
  unfoldable pub processing_elements : (B → List ℕ) → Options → B → B
  processing_elements cores options cpu_set =
      if options.engine_factories.ignore_hyper_threads
      then foldl (λ s i. on h i s) h.alloc (cores cpu_set)
      else cpu_set

  abbrev pub empty_sets : Bool → EngineFactoryCpuSets B
  empty_sets has_fibers = record {
    fiber_cpu_sets = [];
    thread_cpu_sets = [];
    reusable = [];
    shared_cpus_set = h.alloc;
    shared_cpus_has_fibers = has_fibers;
  }

  -- What follows once the default pool has its set.
  unfoldable pub place_groups :
      Options → TextMap EngineFactoryOptions → B → B → EngineFactoryCpuSets B → Generated B
  unfolding place_main place_network place_dedicated place_overlapping
  place_groups options groups default_set remaining c =
      elim (place_network options (place_main options default_set c)) [
        | none ↦ Generated.out_of_range
        | some c1 ↦ elim (place_dedicated groups c1 remaining) [
          | none ↦ Generated.died
          | some (c2, left) ↦
              elim (place_overlapping groups none left (record c2 { shared_cpus_set = left })) [
                | none ↦ Generated.unfinished
                | some c3 ↦ Generated.generated c3
              ]
        ]
      ]

  unfoldable pub generate_engine_factory_cpu_sets : (B → List ℕ) → Options → B → Generated B
  unfolding processing_elements engine_groups_map count_groups min_cpu_count keep place_groups
      set_reusable
  generate_engine_factory_cpu_sets cores options cpu_set =
      let pe_set = processing_elements cores options cpu_set in
      let cpu_count = h.weight pe_set in
      let groups = engine_groups_map options in
      let demand = count_groups groups no_demand in
      let required = min_cpu_count demand in
      let default_type = options.engine_factories.default_engine_type in
      if cpu_count == 0
      then Generated.died
      else if ltb cpu_count ((required + 1) % 2 ^ 64)
      then Generated.insufficient
      else elim (pop h ((cpu_count + 2 ^ 64 - required) % 2 ^ 64) pe_set) [
        | none ↦ Generated.died
        | some (default_set, remaining) ↦
            if number default_type == 2
            then Generated.died
            else place_groups options groups default_set remaining
                (keep default_type "default" default_set (empty_sets demand.shared_cpus_has_fibers))
      ]

  unfoldable pub main_cpu_id : EngineFactoryCpuSets B → Option ℕ
  main_cpu_id c = elim (find "main" c.fiber_cpu_sets) [
    | none ↦ none
    | some s ↦ if h.weight s == 1 then some (first h s) else none
  ]
