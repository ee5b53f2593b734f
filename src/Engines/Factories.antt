-- ===== src/Engines/Factories.antt =====
-- cpp/mrc/src/internal/runnable/engine_factory.cpp: which task queues and CPUs the engines of a launch
-- get, with fiber_engines.cpp and thread_engines.cpp of the same directory. A task queue is the index of
-- its CPU, and the pool of a set has those of its bits.
pub mod Rotation
pub mod SingleUse
use mrc.Prelude.{
  ℕ, zero, suc, ◌+◌, ◌-◌, ◌%◌, ◌^◌, ◌≡◌, Bool, true, false, Option, none, some, List, [], ◌∷◌, ◌++◌,
  length, ltb, leb, ◌==◌, if◌then◌else◌,
}
use mrc.Bitmap.{Hwloc, index, on, next, for_each_bit}
use mrc.Engines.{EngineType}

unfoldable pub task_queue : ℕ → List ℕ → Option ℕ
task_queue i [] = none
task_queue zero (q ∷ qs) = some q
task_queue (suc i) (q ∷ qs) = task_queue i qs

pub record FiberFactory : Type 0 where
  pub pool : List ℕ
  pub offset : ℕ

unfoldable pub add_queue : ℕ → Option (List ℕ) × FiberFactory → Option (List ℕ) × FiberFactory
add_queue q (none, f) = (none, f)
add_queue q (some qs, f) = (some (q ∷ qs), f)

-- `none` is a failed check.
unfoldable pub reusable_queues : ℕ → FiberFactory → Option (List ℕ) × FiberFactory
unfolding task_queue add_queue
reusable_queues zero f = (some [], f)
reusable_queues (suc count) f =
    let n = f.offset in
    let after_it = if n + 1 == length f.pool then 0 else n + 1 in
    let rest = reusable_queues count (record f { offset = after_it }) in
    elim (task_queue n f.pool) [
      | none ↦ (none, record f { offset = after_it })
      | some q ↦ add_queue q rest
    ]

unfoldable pub queues_from : ℕ → ℕ → List ℕ → Option (List ℕ)
unfolding task_queue
queues_from zero i pool = some []
queues_from (suc count) i pool =
    let rest = queues_from count (suc i) pool in
    elim (task_queue i pool) [
      | none ↦ none
      | some q ↦ elim rest [ none ↦ none | some qs ↦ some (q ∷ qs) ]
    ]

-- `none` is the runtime_error or a failed check.
unfoldable pub single_use_queues : ℕ → FiberFactory → Option (List ℕ) × FiberFactory
unfolding queues_from
single_use_queues count f =
    if ltb (length f.pool) ((f.offset + count) % 2 ^ 64)
    then (none, f)
    else (queues_from count f.offset f.pool, f)

pub record ThreadFactory (B : Type 0) : Type 0 where
  pub cpu_set : B
  pub prev_cpu_idx : Option ℕ

module _ {B : Type 0} (h : Hwloc B) where
  unfoldable pub reusable_cpus_loop : ℕ → B → ThreadFactory B → B × ThreadFactory B
  unfolding on next index
  reusable_cpus_loop zero s f = (s, f)
  reusable_cpus_loop (suc count) s f =
      let once = next h f.prev_cpu_idx f.cpu_set in
      let idx : Option ℕ = elim once [ none ↦ next h none f.cpu_set | some i ↦ some i ] in
      reusable_cpus_loop count (on h (index idx) s) (record f { prev_cpu_idx = idx })

  unfoldable pub reusable_cpus : ℕ → ThreadFactory B → B × ThreadFactory B
  unfolding reusable_cpus_loop
  reusable_cpus count f = reusable_cpus_loop count h.alloc f

  -- `none` is the runtime_error.
  unfoldable pub single_use_cpus_loop : ℕ → B → ThreadFactory B → Option B × ThreadFactory B
  unfolding on next
  single_use_cpus_loop zero s f = (some s, f)
  single_use_cpus_loop (suc count) s f = elim (next h f.prev_cpu_idx f.cpu_set) [
    | none ↦ (none, record f { prev_cpu_idx = none })
    | some i ↦ single_use_cpus_loop count (on h i s) (record f { prev_cpu_idx = some i })
  ]

  unfoldable pub single_use_cpus : ℕ → ThreadFactory B → Option B × ThreadFactory B
  unfolding single_use_cpus_loop
  single_use_cpus count f = single_use_cpus_loop count h.alloc f

-- The factories that `make_engine_factory` chooses from.
pub data Factory (B : Type 0) : Type 0 where
  reusable_fiber : FiberFactory → Factory B
  single_use_fiber : FiberFactory → Factory B
  reusable_thread : ThreadFactory B → Factory B
  single_use_thread : ThreadFactory B → Factory B

pub record LaunchOptions : Type 0 where
  pub pe_count : ℕ
  pub engines_per_pe : ℕ

-- The CPUs of the launchers, in order.
unfoldable pub add_launchers : ℕ → ℕ → List ℕ → List ℕ
add_launchers zero q ls = ls
add_launchers (suc n) q ls = add_launchers n q (ls ++ (q ∷ []))

unfoldable pub fiber_launchers : ℕ → List ℕ → List ℕ → List ℕ
unfolding add_launchers
fiber_launchers per_pe [] ls = ls
fiber_launchers per_pe (q ∷ qs) ls = fiber_launchers per_pe qs (add_launchers per_pe q ls)

-- `none` is a failed check.
unfoldable pub fiber_engines : LaunchOptions → List ℕ → Option (List ℕ)
unfolding fiber_launchers
fiber_engines o queues =
    if o.pe_count == length queues then some (fiber_launchers o.engines_per_pe queues []) else none

module _ {B : Type 0} (h : Hwloc B) where
  unfoldable pub thread_engines : LaunchOptions → B → Option (List ℕ)
  unfolding for_each_bit add_launchers
  thread_engines o cpu_set =
      if o.pe_count == h.weight cpu_set
      then if o.engines_per_pe == 0
        then none
        else some
            (for_each_bit h (λ idx cpu_id ls. add_launchers o.engines_per_pe cpu_id ls) cpu_set [])
      else none

  -- The set bits, as the library's loop visits them.
  unfoldable pub vec : B → List ℕ
  unfolding for_each_bit
  vec cpu_set = for_each_bit h (λ idx bit v. v ++ (bit ∷ [])) cpu_set []

  -- `none` is the fatal error, or the failed check of a factory of threads.
  unfoldable pub make_engine_factory : EngineType → B → Bool → Option (Factory B)
  unfolding vec
  make_engine_factory EngineType.fiber cpu_set reusable =
      let f : FiberFactory = record { pool = vec cpu_set; offset = 0 } in
      some (if reusable then Factory.reusable_fiber f else Factory.single_use_fiber f)
  make_engine_factory EngineType.thread cpu_set reusable =
      let f : ThreadFactory B = record { cpu_set = cpu_set; prev_cpu_idx = none } in
      if h.weight cpu_set == 0
      then none
      else some (if reusable then Factory.reusable_thread f else Factory.single_use_thread f)
  make_engine_factory EngineType.process cpu_set reusable = none

  -- The launchers' CPUs, unless an exception or a failed check ends the call, and the factory afterwards.
  unfoldable pub build_engines : LaunchOptions → Factory B → Option (List ℕ) × Factory B
  unfolding reusable_queues single_use_queues reusable_cpus single_use_cpus fiber_engines
      thread_engines
  build_engines o (Factory.reusable_fiber f) =
      let (queues, f') = reusable_queues o.pe_count f in
      (elim queues [ none ↦ none | some qs ↦ fiber_engines o qs ], Factory.reusable_fiber f')
  build_engines o (Factory.single_use_fiber f) =
      let (queues, f') = single_use_queues o.pe_count f in
      (elim queues [ none ↦ none | some qs ↦ fiber_engines o qs ], Factory.single_use_fiber f')
  build_engines o (Factory.reusable_thread f) =
      let (cpus, f') = reusable_cpus h o.pe_count f in
      (thread_engines o cpus, Factory.reusable_thread f')
  build_engines o (Factory.single_use_thread f) =
      let (cpus, f') = single_use_cpus h o.pe_count f in
      (elim cpus [ none ↦ none | some s ↦ thread_engines o s ], Factory.single_use_thread f')
