-- ===== src/Engines/Allocation.antt =====
-- cpp/mrc/src/internal/system/engine_factory_cpu_sets.cpp: the groups that the code adds, and what the
-- later steps leave as it is.
use Prim.Native.String.{String}
use text.Mathlib.Text.{◌==◌ as str_eq}
use text.Mathlib.TextEquality.{eq_iff}
use mrc.Prelude.{
  ℕ, ◌≡◌, refl, ◌∙◌, Bool, true, false, not, ◌&&◌, none, some, [], ◌∷◌, arith, Bool-cases, inl, inr,
}
use mrc.Modules.{TextMap, find}
use mrc.Bitmap.{Hwloc, on, first}
use mrc.Engines.{
  EngineType, EngineFactoryOptions, Options, EngineFactoryCpuSets, keep, set_reusable, set_entry,
  single_fiber, uses_network, specialized_network, engine_groups_map, place_main, place_network,
}
use mrc.Engines.Needs.{Distinct, find-set_entry, set_entry-Distinct}
use mrc.Engines.Placement.{
  pool, pool-keep_same, pool-keep_other, pool-set_reusable, holders, AllSized,
}

pub map-Distinct :
    (options : Options)
    → Distinct options.engine_factories.engine_resource_groups
    → Distinct (engine_groups_map options)
unfolding engine_groups_map
map-Distinct options d =
    let groups = options.engine_factories.engine_resource_groups in
    let with_main = set_entry-Distinct "main" single_fiber groups d in
    let without = set_entry-Distinct "mrc_network" single_fiber groups d in
    let both =
      set_entry-Distinct "mrc_network" single_fiber (set_entry "main" single_fiber groups)
        with_main in
    elim (Bool-cases options.engine_factories.dedicated_main_thread) [
      | inl y ↦ elim (Bool-cases (specialized_network options)) [
        | inl z ↦ rw (engine_groups_map, y, z) both
        | inr z ↦ rw (engine_groups_map, y, z) with_main
      ]
      | inr n ↦ elim (Bool-cases (specialized_network options)) [
        | inl z ↦ rw (engine_groups_map, n, z) without
        | inr z ↦ rw (engine_groups_map, n, z) d
      ]
    ]

-- The names of the groups are those of the options and the two that the code adds.
pub find-engine_groups_map :
    (k : String) (options : Options)
    → str_eq "main" k ≡ false
    → str_eq "mrc_network" k ≡ false
    → find k options.engine_factories.engine_resource_groups ≡ none
    → find k (engine_groups_map options) ≡ none
unfolding engine_groups_map
find-engine_groups_map k options m w n =
    let groups = options.engine_factories.engine_resource_groups in
    ground (
      arith,
      m,
      w,
      n,
      find-set_entry k "main" single_fiber groups,
      find-set_entry k "mrc_network" single_fiber groups,
      find-set_entry k "mrc_network" single_fiber (set_entry "main" single_fiber groups),
    )

-- The one case that has no set for the network: it would share the set of a main thread of its own.
abbrev pub network_without_main : Options → Bool
network_without_main options =
    uses_network options
    && not (specialized_network options)
    && options.engine_factories.dedicated_main_thread

module _ {B : Type 0} (h : Hwloc B) where
  -- The sets of the groups that do not overlap are the same.
  abbrev pub SameDedicated :
      TextMap EngineFactoryOptions → EngineFactoryCpuSets B → EngineFactoryCpuSets B → Type 0
  SameDedicated m c c' =
      (t : EngineType) (k : String) (o : EngineFactoryOptions)
      → find k m ≡ some o
      → o.allow_overlap ≡ false
      → pool t k c' ≡ pool t k c

  same_later :
      (k : String) (o : EngineFactoryOptions) (m : TextMap EngineFactoryOptions)
      (c c' : EngineFactoryCpuSets B)
      → find k m ≡ none
      → SameDedicated ((k, o) ∷ m) c c'
      → SameDedicated m c c'
  unfolding find
  same_later k o m c c' fresh s t i u e f = s t i u (ground (arith, eq_iff k i, fresh, e)) f

  pub holders_same :
      (j : ℕ) (m : TextMap EngineFactoryOptions) (c c' : EngineFactoryCpuSets B)
      → Distinct m
      → SameDedicated m c c'
      → holders h j m c' ≡ holders h j m c
  unfolding find
  holders_same j [] c c' d s = refl
  holders_same j ((k, o) ∷ m) c c' (fresh, d) s =
      let rest = holders_same j m c c' d (same_later k o m c c' fresh s) in
      elim (Bool-cases o.allow_overlap) [
        | inl y ↦ ground (arith, y, rest)
        | inr f ↦ rw (holders, s o.engine_type k o (ground (arith, eq_iff k k)) f, rest) refl
      ]

  pub Sized-same :
      (m : TextMap EngineFactoryOptions) (c c' : EngineFactoryCpuSets B)
      → Distinct m
      → SameDedicated m c c'
      → AllSized h m c
      → AllSized h m c'
  unfolding find
  Sized-same [] c c' d s a = tt
  Sized-same ((k, o) ∷ m) c c' (fresh, d) s (z, a) =
      let rest = Sized-same m c c' d (same_later k o m c c' fresh s) a in
      elim (Bool-cases o.allow_overlap) [
        | inl y ↦ rw (AllSized, y) (tt, rest)
        | inr f ↦ rw (AllSized, s o.engine_type k o (ground (arith, eq_iff k k)) f) (z, rest)
      ]

  named_same :
      (t : EngineType) (c : EngineFactoryCpuSets B)
      → pool t "default" (set_reusable "main" true (set_reusable "default" true c))
        ≡ pool t "default" c
  named_same t c =
      pool-set_reusable t "default" "main" true (set_reusable "default" true c)
      ∙ pool-set_reusable t "default" "default" true c

  main-default :
      (options : Options) (d : B) (c : EngineFactoryCpuSets B) (t : EngineType)
      → pool t "default" (place_main h options d c) ≡ pool t "default" c
  unfolding place_main
  main-default options d c t = elim (Bool-cases options.engine_factories.dedicated_main_thread) [
    | inl y ↦ rw (place_main, y) (named_same t c)
    | inr n ↦
        let s = on h (first h d) h.alloc in
        rw (place_main, n)
          (named_same t (keep EngineType.fiber "main" s c)
            ∙ pool-keep_other t EngineType.fiber "default" "main" s c refl)
  ]

  -- Without a thread of its own, `main` has the first bit of the default pool.
  pub main_shared :
      (options : Options) (d : B) (c : EngineFactoryCpuSets B)
      → options.engine_factories.dedicated_main_thread ≡ false
      → pool EngineType.fiber "main" (place_main h options d c) ≡ some (on h (first h d) h.alloc)
  unfolding place_main set_reusable
  main_shared options d c n =
      rw (place_main, n) (pool-keep_same EngineType.fiber "main" (on h (first h d) h.alloc) c)

  pub place_network_lem :
      (options : Options) (d : B) (c : EngineFactoryCpuSets B)
      → network_without_main options ≡ false
      → (c' : EngineFactoryCpuSets B) × (place_network h options (place_main h options d c)
          ≡ some c')
        × ((t : EngineType) → pool t "default" c' ≡ pool t "default" c)
  unfolding place_network
  place_network_lem options d c n =
      let c1 = place_main h options d c in
      elim (Bool-cases (uses_network options && not (specialized_network options))) [
        | inl y ↦
            let s = on h (first h d) h.alloc in
            let e = main_shared options d c (ground (arith, y, n)) in
            (
              set_reusable "mrc_network" true (keep EngineType.fiber "mrc_network" s c1),
              rw (place_network, y, e) refl,
              λ t.
                  pool-set_reusable t "default" "mrc_network" true
                    (keep EngineType.fiber "mrc_network" s c1)
                  ∙ pool-keep_other t EngineType.fiber "default" "mrc_network" s c1 refl
                  ∙ main-default options d c t,
            )
        | inr z ↦ (c1, rw (place_network, z) refl, main-default options d c)
      ]
