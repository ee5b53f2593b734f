-- ===== src/Engines/Division.antt =====
-- cpp/mrc/src/internal/system/engine_factory_cpu_sets.cpp: how the CPUs are divided.
use Prim.Native.String.{String}
use mrc.Prelude.{
  ℕ, ◌+◌, ◌-◌, ◌%◌, ◌^◌, ◌≤◌, ◌<◌, ◌≡◌, refl, ◌∙◌, Bool, true, false, not, ◌&&◌, Bool-cases, inl,
  inr, leb, none, some, List, ltb, ◌==◌, if◌then◌else◌, arith,
}
use mrc.Modules.{TextMap, find, put}
use mrc.Bitmap.{Hwloc, pop}
use mrc.Bitmap.Popping.{one_if, pop_lem}
use mrc.Engines.{
  EngineType, EngineFactoryOptions, Options, EngineFactoryCpuSets, Generated, number, keep,
  set_reusable, engine_groups_map, no_demand, count_groups, min_cpu_count, place_main,
  place_network, place_groups, uses_network, specialized_network, processing_elements, empty_sets,
  generate_engine_factory_cpu_sets,
}
use mrc.Engines.Needs.{dedicated, shared, min_cpu_count_lem}
use mrc.Engines.Placement.{pool, holders, AllSized}
use mrc.Engines.Sharing.{AllInside}
use mrc.Engines.Allocation.{network_without_main}

-- The CPUs that all groups need.
abbrev pub needed : Options → ℕ
needed options = dedicated (engine_groups_map options) + shared (engine_groups_map options)

module _ {B : Type 0} (h : Hwloc B) where
  -- The division of the bits of `b` among the default pool and the groups.
  pub record Divided (t : EngineType) (m : TextMap EngineFactoryOptions) (b : B)
      (c : EngineFactoryCpuSets B) : Type 0 where
    pub default_set : B
    pub pooled : pool t "default" c ≡ some default_set
    pub room : h.weight default_set + (dedicated m + shared m) ≡ h.weight b
    pub sized : AllSized h m c
    pub shared_size : h.weight c.shared_cpus_set ≡ shared m
    pub inside : AllInside h m c.shared_cpus_set c
    pub apart :
        (j : ℕ)
        → one_if (h.isset j default_set) + holders h j m c + one_if (h.isset j c.shared_cpus_set)
          ≤ one_if (h.isset j b)

  -- With enough CPUs the groups are placed once the default pool has its own.
  granted :
      (cores : B → List ℕ) (options : Options) (cpu_set d rest : B)
      → let g = options.engine_factories in
        let m = engine_groups_map options in
        let b = processing_elements h cores options cpu_set in
        number g.default_engine_type < 2
        → dedicated m + shared m < h.weight b
        → h.weight b < 2 ^ 64
        → pop h (h.weight b - (dedicated m + shared m)) b ≡ some (d, rest)
        → generate_engine_factory_cpu_sets h cores options cpu_set
          ≡ place_groups h options m d rest (
              keep g.default_engine_type "default" d
                (empty_sets h (count_groups m no_demand).shared_cpus_has_fibers))
  unfolding generate_engine_factory_cpu_sets
  granted cores options cpu_set d rest t l u popped =
      let m = engine_groups_map options in
      let b = processing_elements h cores options cpu_set in
      let needs = min_cpu_count_lem m (omega arith) in
      let nonempty : (h.weight b == 0) ≡ false = ground (arith, l) in
      let enough : ltb (h.weight b) ((min_cpu_count (count_groups m no_demand) + 1) % 2 ^ 64)
          ≡ false =
        ground (arith, needs, l, u) in
      let amount : (h.weight b + 2 ^ 64 - min_cpu_count (count_groups m no_demand)) % 2 ^ 64
          ≡ h.weight b - (dedicated m + shared m) =
        omega (arith, needs, l, u) in
      let typed : (number options.engine_factories.default_engine_type == 2) ≡ false =
        ground (arith, t) in
      rw (generate_engine_factory_cpu_sets, nonempty, enough, amount, popped, typed) refl

  -- Before any group is placed, no set is kept under a name but that of the default pool.
  only_default :
      (t : EngineType) (options : Options) (d : B) (has_fibers : Bool)
      → options.engine_factories.dedicated_main_thread ≡ true
      → find "main"
          (place_main h options d (keep t "default" d (empty_sets h has_fibers))).fiber_cpu_sets
        ≡ none
  unfolding place_main keep set_reusable find put
  only_default EngineType.fiber options d f y = rw (place_main, y) refl
  only_default EngineType.thread options d f y = rw (place_main, y) refl
  only_default EngineType.process options d f y = rw (place_main, y) refl

  -- With a thread of its own for main and none for the network, which is used, there is no set for the
  -- network to share yet: if the default engine type is not Process, the call fails, whatever the groups are.
  -- The set has fewer than 2^64 bits, and the groups need fewer than 2^64 - 1 together.
  pub network_without_main_fails :
      (cores : B → List ℕ) (options : Options) (cpu_set : B)
      → network_without_main options ≡ true
      → number options.engine_factories.default_engine_type < 2
      → needed options + 1 < 2 ^ 64
      → h.weight (processing_elements h cores options cpu_set) < 2 ^ 64
      → generate_engine_factory_cpu_sets h cores options cpu_set ≡ (
          if h.weight (processing_elements h cores options cpu_set) == 0
          then Generated.died
          else if leb (h.weight (processing_elements h cores options cpu_set)) (needed options)
          then Generated.insufficient
          else Generated.out_of_range)
  unfolding generate_engine_factory_cpu_sets place_groups place_network
  network_without_main_fails cores options cpu_set w t l u =
      let m = engine_groups_map options in
      let g = options.engine_factories in
      let b = processing_elements h cores options cpu_set in
      let needs = min_cpu_count_lem m (omega arith) in
      elim (Bool-cases (h.weight b == 0)) [
        | inl y ↦ rw (generate_engine_factory_cpu_sets, y) refl
        | inr n ↦ elim (Bool-cases (leb (h.weight b) (dedicated m + shared m))) [
          | inl few ↦
              let short : ltb (h.weight b) ((min_cpu_count (count_groups m no_demand) + 1) % 2 ^ 64)
                  ≡ true =
                ground (arith, needs, l, few) in
              rw (generate_engine_factory_cpu_sets, n, short, few) refl
          | inr enough ↦
              let (d, rest, popped, v) =
                pop_lem h (h.weight b - (dedicated m + shared m)) b (omega arith) in
              let has_fibers = (count_groups m no_demand).shared_cpus_has_fibers in
              let no_main =
                only_default g.default_engine_type options d has_fibers (ground (arith, w)) in
              let shares : (uses_network options && not (specialized_network options)) ≡ true =
                ground (arith, w) in
              granted cores options cpu_set d rest t (ground (arith, enough)) u popped
              ∙ rw (n, enough, place_groups, place_network, shares, no_main) refl
        ]
      ]
