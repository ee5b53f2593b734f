-- ===== src/Engines/Sharing.antt =====
-- cpp/mrc/src/internal/system/engine_factory_cpu_sets.cpp: the sets of the groups that overlap.
use Prim.Native.String.{String}
use text.Mathlib.Text.{◌==◌ as str_eq}
use text.Mathlib.TextEquality.{eq_iff}
use mrc.Prelude.{
  ℕ, zero, suc, ◌≤◌, ◌<◌, ◌≡◌, refl, ◌∙◌, Bool, true, false, Option, none, some, [], ◌∷◌,
  if◌then◌else◌, arith, Bool-cases, Option-cases, inl, inr,
}
use mrc.Modules.{TextMap, find}
use mrc.Bitmap.{Hwloc, on}
use mrc.Bitmap.Popping.{one_if, next-exists}
use mrc.Engines.{
  EngineType, EngineFactoryOptions, EngineFactoryCpuSets, keep, next_shared, take_shared,
  place_overlapping,
}
use mrc.Engines.Needs.{shared, Distinct}
use mrc.Engines.Placement.{pool, kept, pool-keep_same, pool-keep_other}

-- Whether the group overlaps with others.
abbrev overlaps_if : Option EngineFactoryOptions → Bool
overlaps_if none = false
overlaps_if (some o) = o.allow_overlap

abbrev pub overlaps : String → TextMap EngineFactoryOptions → Bool
overlaps k m = overlaps_if (find k m)

overlaps_later :
    (i k : String) (o : EngineFactoryOptions) (m : TextMap EngineFactoryOptions)
    → find k m ≡ none
    → overlaps i ((k, o) ∷ m) ≡ false
    → overlaps i m ≡ false
unfolding find
overlaps_later i k o m fresh n = ground (arith, eq_iff k i, fresh, n)

not_this :
    (i k : String) (o : EngineFactoryOptions) (m : TextMap EngineFactoryOptions)
    → o.allow_overlap ≡ true
    → overlaps i ((k, o) ∷ m) ≡ false
    → str_eq k i ≡ false
unfolding find
not_this i k o m y n = ground (arith, y, n)

module _ {B : Type 0} (h : Hwloc B) where
  abbrev pub Within : B → B → Type 0
  Within s b = (j : ℕ) → one_if (h.isset j s) ≤ one_if (h.isset j b)

  next_shared_lem :
      (idx : Option ℕ) (b : B)
      → 0 < h.weight b
      → (i : ℕ) × (next_shared h 2 idx b ≡ some i) × (h.isset i b ≡ true)
  unfolding next_shared
  next_shared_lem idx b w = elim (Option-cases (h.next idx b)) [
    | inr (i, e) ↦ (i, rw (next_shared, e) refl, (h.next_some idx b i e).1)
    | inl n ↦
        let (i, e) = next-exists h none b (λ j l. ground (arith, l)) w in
        (i, rw (next_shared, n, e) refl, (h.next_some none b i e).1)
  ]

  take_shared_lem :
      (n : ℕ) (idx : Option ℕ) (b s : B)
      → n ≤ h.weight b
      → Within s b
      → (idx' : Option ℕ) × (s' : B) × (take_shared h n idx b s ≡ some (idx', s')) × Within s' b
  unfolding take_shared on
  take_shared_lem zero idx b s l v = (idx, s, refl, v)
  take_shared_lem (suc n) idx b s l v =
      let (i, e, is_set) = next_shared_lem idx b (omega arith) in
      let (idx', s', out, v') =
        take_shared_lem n (some i) b (h.set i s) (omega arith)
          (λ j. ground (arith, h.isset-set j i s, is_set, v j)) in
      (idx', s', rw (take_shared, e) out, v')

  abbrev pub Inside : EngineType → B → Option B → Type 0
  Inside EngineType.process b s = s ≡ none
  Inside _ b none = ⊥
  Inside _ b (some s) = Within s b

  -- The sets of all groups that overlap are parts of the shared set.
  abbrev pub AllInside : TextMap EngineFactoryOptions → B → EngineFactoryCpuSets B → Type 0
  AllInside [] b c = Unit {0}
  AllInside ((k, o) ∷ m) b c =
      (if o.allow_overlap then Inside o.engine_type b (pool o.engine_type k c) else Unit {0})
      × AllInside m b c

  Inside-cons :
      (k : String) (o : EngineFactoryOptions) (m : TextMap EngineFactoryOptions) (b : B)
      (c : EngineFactoryCpuSets B) (s : Option B)
      → o.allow_overlap ≡ true
      → pool o.engine_type k c ≡ s
      → Inside o.engine_type b s
      → AllInside m b c
      → AllInside ((k, o) ∷ m) b c
  Inside-cons k o m b c s y e z a = rw (AllInside, y, e) (z, a)

  kept-Inside : (t : EngineType) (s b : B) → Within s b → Inside t b (kept t s)
  kept-Inside EngineType.fiber s b w = w
  kept-Inside EngineType.thread s b w = w
  kept-Inside EngineType.process s b w = refl

  pub record Overlapping (m : TextMap EngineFactoryOptions) (b : B) (c c' : EngineFactoryCpuSets B)
      : Type 0 where
    pub inside : AllInside m b c'
    pub others : (t : EngineType) (k : String) → overlaps k m ≡ false → pool t k c' ≡ pool t k c
    pub same_shared : c'.shared_cpus_set ≡ c.shared_cpus_set
    pub same_reusable : c'.reusable ≡ c.reusable

  shared-keep :
      (t : EngineType) (k : String) (s : B) (c : EngineFactoryCpuSets B)
      → ((keep t k s c).shared_cpus_set ≡ c.shared_cpus_set)
        × ((keep t k s c).reusable ≡ c.reusable)
  unfolding keep
  shared-keep EngineType.fiber k s c = (refl, refl)
  shared-keep EngineType.thread k s c = (refl, refl)
  shared-keep EngineType.process k s c = (refl, refl)

  pub place_overlapping_lem :
      (m : TextMap EngineFactoryOptions) (idx : Option ℕ) (b : B) (c : EngineFactoryCpuSets B)
      → Distinct m
      → shared m ≤ h.weight b
      → (c' : EngineFactoryCpuSets B) × (place_overlapping h m idx b c ≡ some c')
        × Overlapping m b c c'
  unfolding place_overlapping
  place_overlapping_lem [] idx b c d l = (
    c,
    refl,
    record { inside = tt; others = λ t k n. refl; same_shared = refl; same_reusable = refl },
  )
  place_overlapping_lem ((k, o) ∷ m) idx b c (fresh, d) l = elim (Bool-cases o.allow_overlap) [
    | inl y ↦
        let (idx', s, taken, v) =
          take_shared_lem o.cpu_count idx b h.alloc (ground (arith, y, l))
            (λ j. ground (arith, h.isset-alloc j)) in
        let stored = keep o.engine_type k s c in
        let (c', out, p) = place_overlapping_lem m idx' b stored d (ground (arith, y, l)) in
        let mine : pool o.engine_type k c' ≡ kept o.engine_type s =
          p.others o.engine_type k (rw fresh refl) ∙ pool-keep_same o.engine_type k s c in
        let (same, reused) = shared-keep o.engine_type k s c in
        (
          c',
          rw (place_overlapping, y, taken) out,
          record {
            inside =
                Inside-cons k o m b c' (kept o.engine_type s) y mine
                  (kept-Inside o.engine_type s b v) p.inside;
            others = λ t i n.
                p.others t i (overlaps_later i k o m fresh n)
                ∙ pool-keep_other t o.engine_type i k s c (not_this i k o m y n);
            same_shared = p.same_shared ∙ same;
            same_reusable = p.same_reusable ∙ reused;
          },
        )
    | inr f ↦
        let (c', out, p) = place_overlapping_lem m idx b c d (ground (arith, f, l)) in
        (
          c',
          rw (place_overlapping, f) out,
          record {
            inside = ground (arith, f, p.inside);
            others = λ t i n. p.others t i (overlaps_later i k o m fresh n);
            same_shared = p.same_shared;
            same_reusable = p.same_reusable;
          },
        )
  ]
