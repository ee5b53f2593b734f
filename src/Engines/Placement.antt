-- ===== src/Engines/Placement.antt =====
-- cpp/mrc/src/internal/system/engine_factory_cpu_sets.cpp: the sets of the groups that do not overlap.
use Prim.Native.String.{String}
use text.Mathlib.Text.{◌==◌ as str_eq}
use text.Mathlib.TextEquality.{eq_iff}
use mrc.Prelude.{
  ℕ, ◌+◌, ◌≤◌, ◌≡◌, refl, ◌∙◌, Bool, false, Option, none, some, [], ◌∷◌, if◌then◌else◌, arith,
  Bool-cases, inl, inr,
}
use mrc.Modules.{TextMap, find}
use mrc.Modules.TextMaps.{find-put}
use mrc.Bitmap.{Hwloc}
use mrc.Bitmap.Popping.{one_if, pop_lem}
use mrc.Engines.{
  EngineType, EngineFactoryOptions, EngineFactoryCpuSets, keep, set_reusable, place_dedicated,
}
use mrc.Engines.Needs.{dedicated, Distinct}

module _ {B : Type 0} where
  -- The set that is kept under a name for an engine's type.
  abbrev pub pool : EngineType → String → EngineFactoryCpuSets B → Option B
  pool EngineType.fiber k c = find k c.fiber_cpu_sets
  pool EngineType.thread k c = find k c.thread_cpu_sets
  pool EngineType.process k c = none

  abbrev pub kept : EngineType → B → Option B
  kept EngineType.fiber s = some s
  kept EngineType.thread s = some s
  kept EngineType.process s = none

  pub pool-keep_same :
      (t : EngineType) (k : String) (s : B) (c : EngineFactoryCpuSets B)
      → pool t k (keep t k s c) ≡ kept t s
  unfolding keep
  pool-keep_same EngineType.fiber k s c =
      ground (arith, find-put k k s c.fiber_cpu_sets, eq_iff k k)
  pool-keep_same EngineType.thread k s c =
      ground (arith, find-put k k s c.thread_cpu_sets, eq_iff k k)
  pool-keep_same EngineType.process k s c = refl

  pub pool-keep_other :
      (t u : EngineType) (j k : String) (s : B) (c : EngineFactoryCpuSets B)
      → str_eq k j ≡ false
      → pool t j (keep u k s c) ≡ pool t j c
  unfolding keep
  pool-keep_other EngineType.fiber EngineType.fiber j k s c n =
      ground (arith, find-put j k s c.fiber_cpu_sets, n)
  pool-keep_other EngineType.thread EngineType.fiber j k s c n = refl
  pool-keep_other EngineType.process EngineType.fiber j k s c n = refl
  pool-keep_other EngineType.fiber EngineType.thread j k s c n = refl
  pool-keep_other EngineType.thread EngineType.thread j k s c n =
      ground (arith, find-put j k s c.thread_cpu_sets, n)
  pool-keep_other EngineType.process EngineType.thread j k s c n = refl
  pool-keep_other t EngineType.process j k s c n = refl

  pub pool-set_reusable :
      (t : EngineType) (j k : String) (b : Bool) (c : EngineFactoryCpuSets B)
      → pool t j (set_reusable k b c) ≡ pool t j c
  unfolding set_reusable
  pool-set_reusable EngineType.fiber j k b c = refl
  pool-set_reusable EngineType.thread j k b c = refl
  pool-set_reusable EngineType.process j k b c = refl

module _ {B : Type 0} (h : Hwloc B) where
  abbrev pub bit : ℕ → Option B → ℕ
  bit j none = 0
  bit j (some s) = one_if (h.isset j s)

  -- How many of the groups that do not overlap hold the bit.
  abbrev pub holders : ℕ → TextMap EngineFactoryOptions → EngineFactoryCpuSets B → ℕ
  holders j [] c = 0
  holders j ((k, o) ∷ m) c =
      (if o.allow_overlap then 0 else bit j (pool o.engine_type k c)) + holders j m c

  -- A set of the size.
  abbrev pub Sized : EngineType → ℕ → Option B → Type 0
  Sized EngineType.process n s = s ≡ none
  Sized _ n none = ⊥
  Sized _ n (some s) = h.weight s ≡ n

  -- Each group that does not overlap has the number of CPUs that it asks for.
  abbrev pub AllSized : TextMap EngineFactoryOptions → EngineFactoryCpuSets B → Type 0
  AllSized [] c = Unit {0}
  AllSized ((k, o) ∷ m) c =
      (if o.allow_overlap
        then Unit {0}
        else Sized o.engine_type o.cpu_count (pool o.engine_type k c))
      × AllSized m c

  Sized-cons :
      (k : String) (o : EngineFactoryOptions) (m : TextMap EngineFactoryOptions)
      (c : EngineFactoryCpuSets B) (s : Option B)
      → o.allow_overlap ≡ false
      → pool o.engine_type k c ≡ s
      → Sized o.engine_type o.cpu_count s
      → AllSized m c
      → AllSized ((k, o) ∷ m) c
  Sized-cons k o m c s f e z a = rw (AllSized, f, e) (z, a)

  kept-Sized : (t : EngineType) (s : B) (n : ℕ) → h.weight s ≡ n → Sized t n (kept t s)
  kept-Sized EngineType.fiber s n w = w
  kept-Sized EngineType.thread s n w = w
  kept-Sized EngineType.process s n w = refl

  bit-kept : (j : ℕ) (t : EngineType) (s : B) → bit j (kept t s) ≤ one_if (h.isset j s)
  bit-kept j EngineType.fiber s = omega arith
  bit-kept j EngineType.thread s = omega arith
  bit-kept j EngineType.process s = omega arith

  pub find_later :
      (i k : String) (o : EngineFactoryOptions) (m : TextMap EngineFactoryOptions)
      → find i ((k, o) ∷ m) ≡ none
      → (str_eq k i ≡ false) × (find i m ≡ none)
  unfolding find
  find_later i k o m n = ground arith

  pub record Placed (m : TextMap EngineFactoryOptions) (b left : B) (c c' : EngineFactoryCpuSets B)
      : Type 0 where
    pub each : (j : ℕ) → holders j m c' + one_if (h.isset j left) ≤ one_if (h.isset j b)
    pub spare : h.weight left + dedicated m ≡ h.weight b
    pub sized : AllSized m c'
    pub others : (t : EngineType) (k : String) → find k m ≡ none → pool t k c' ≡ pool t k c

  pub place_dedicated_lem :
      (m : TextMap EngineFactoryOptions) (c : EngineFactoryCpuSets B) (b : B)
      → Distinct m
      → dedicated m ≤ h.weight b
      → (c' : EngineFactoryCpuSets B) × (left : B) × (place_dedicated h m c b ≡ some (c', left))
        × Placed m b left c c'
  unfolding place_dedicated find
  place_dedicated_lem [] c b d l = (
    c,
    b,
    refl,
    record { each = λ j. omega arith; spare = omega arith; sized = tt; others = λ t k n. refl },
  )
  place_dedicated_lem ((k, o) ∷ m) c b (fresh, d) l =
      let named = set_reusable k o.reusable c in
      elim (Bool-cases o.allow_overlap) [
        | inl y ↦
            let (c', left, out, p) = place_dedicated_lem m named b d (ground (arith, y, l)) in
            (
              c',
              left,
              rw (place_dedicated, y) out,
              record {
                each = λ j. ground (arith, y, p.each j);
                spare = ground (arith, y, p.spare);
                sized = ground (arith, y, p.sized);
                others = λ t i n.
                    p.others t i (find_later i k o m n).1 ∙ pool-set_reusable t i k o.reusable c;
              },
            )
        | inr f ↦
            let (s, b', popped, v) = pop_lem h o.cpu_count b (ground (arith, f, l)) in
            let stored = keep o.engine_type k s named in
            let (c', left, out, p) =
              place_dedicated_lem m stored b' d (ground (arith, f, l, v.lost)) in
            let mine : pool o.engine_type k c' ≡ kept o.engine_type s =
              p.others o.engine_type k fresh ∙ pool-keep_same o.engine_type k s named in
            (
              c',
              left,
              rw (place_dedicated, f, popped) out,
              record {
                each = λ j. ground (
                  arith,
                  f,
                  mine,
                  p.each j,
                  bit-kept j o.engine_type s,
                  v.each j,
                  h.isset-alloc j,
                );
                spare = ground (arith, f, p.spare, v.lost);
                sized =
                    let full : h.weight s ≡ o.cpu_count =
                      ground (arith, v.gained, h.weight_zero h.alloc (λ i. h.isset-alloc i)) in
                    Sized-cons k o m c' (kept o.engine_type s) f mine
                      (kept-Sized o.engine_type s o.cpu_count full) p.sized;
                others = λ t i n.
                    let (other, absent) = find_later i k o m n in
                    p.others t i absent
                    ∙ pool-keep_other t o.engine_type i k s named other
                    ∙ pool-set_reusable t i k o.reusable c;
              },
            )
      ]
