-- ===== src/Examples/Engines.antt =====
-- The division of six CPUs, and launches on some of them.
use mrc.Prelude.{
  ℕ, ◌+◌, ◌%◌, ◌≤◌, ◌≡◌, refl, Bool, true, false, none, some, List, [], ◌∷◌, map, length, ltb, leb,
  ◌==◌, if◌then◌else◌, arith,
}
use mrc.Modules.{find}
use mrc.Bitmap.Popping.{one_if}
use mrc.Engines.{
  EngineType, EngineFactoryOptions, Options, Generated, engine_groups_map, processing_elements,
  generate_engine_factory_cpu_sets, set_entry, place,
}
use mrc.Engines.Division.{needed, network_without_main_fails}
use mrc.Engines.Factories.{FiberFactory, ThreadFactory, reusable_queues, single_use_cpus}
use mrc.Engines.Factories.Rotation.{InTurn, reusable_queues_lem}
use mrc.Engines.Factories.SingleUse.{
  first_of, launch_each, launch_each_lem, take_each, takers, Weights, take_each_lem,
  exhausted-restarts,
}
use mrc.Examples.Bitmaps.{listed, weight, next_at}

abbrev six : List Bool
six = true ∷ true ∷ true ∷ true ∷ true ∷ true ∷ []

abbrev no_cores : List Bool → List ℕ
no_cores b = []

abbrev threads : ℕ → Bool → EngineFactoryOptions
threads n overlap = record {
  cpu_count = n;
  engine_type = EngineType.thread;
  reusable = false;
  allow_overlap = overlap;
}

-- A group of two threads of its own, and one that may share two CPUs.
abbrev shared_options : Options
shared_options = record {
  architect_url = "";
  engine_factories = record {
    dedicated_main_thread = true;
    dedicated_network_thread = false;
    ignore_hyper_threads = false;
    default_engine_type = EngineType.fiber;
    engine_resource_groups = ("copies", threads 2 false) ∷ ("polling", threads 2 true) ∷ [];
  };
}

abbrev networked : Options
networked = record shared_options { architect_url = "localhost:13337" }

abbrev queues : FiberFactory
queues = record { pool = 4 ∷ 6 ∷ 7 ∷ []; offset = 2 }

abbrev taken : ThreadFactory (List Bool)
taken = record { cpu_set = six; prev_cpu_idx = some 4 }

abbrev counts : List ℕ
counts = 2 ∷ 4 ∷ 2 ∷ []

network_without_main_fails_example :
    generate_engine_factory_cpu_sets listed no_cores networked six ≡ (
      if listed.weight (processing_elements listed no_cores networked six) == 0
      then Generated.died
      else if leb
          (listed.weight (processing_elements listed no_cores networked six))
          (needed networked)
      then Generated.insufficient
      else Generated.out_of_range)
network_without_main_fails_example =
    network_without_main_fails listed no_cores networked six refl (omega arith)
      (unfold engine_groups_map set_entry place find processing_elements weight in omega arith)
      (unfold engine_groups_map set_entry place find processing_elements weight in omega arith)

reusable_queues_lem_example :
    (qs : List ℕ) × (f' : FiberFactory) × (reusable_queues 5 queues ≡ (some qs, f'))
    × (length qs ≡ 5)
    × InTurn queues.offset queues.pool qs
    × (f'.pool ≡ queues.pool)
    × (f'.offset ≡ (queues.offset + 5) % length queues.pool)
reusable_queues_lem_example = reusable_queues_lem 5 queues (omega arith)

launch_each_lem_example :
    launch_each counts (record { pool = queues.pool; offset = 0 })
    ≡ map
        (λ n. if ltb (length (queues.pool)) n then none else some (first_of n (queues.pool)))
        counts
launch_each_lem_example =
    launch_each_lem counts queues.pool (omega arith, (omega arith, (omega arith, tt)))

take_each_lem_example :
    (ss : List (List Bool)) × (take_each listed
        (1 ∷ 3 ∷ [])
        (record { cpu_set = six; prev_cpu_idx = none })
      ≡ some ss)
    × Weights listed (1 ∷ 3 ∷ []) ss
    × ((j : ℕ) → takers listed j ss ≤ one_if (listed.isset j six))
take_each_lem_example = take_each_lem listed (1 ∷ 3 ∷ []) six (unfold weight in omega arith)

exhausted-restarts_example :
    single_use_cpus listed 3 (single_use_cpus listed 2 taken).1
    ≡ single_use_cpus listed 3 (record { cpu_set = taken.cpu_set; prev_cpu_idx = none })
exhausted-restarts_example =
    exhausted-restarts listed 2 3 taken (unfold single_use_cpus next_at in refl)
