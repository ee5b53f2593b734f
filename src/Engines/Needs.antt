-- ===== src/Engines/Needs.antt =====
-- cpp/mrc/src/internal/system/engine_factory_cpu_sets.cpp: how many CPUs the groups need, and the names
-- that they have.
use Prim.Native.Nat.{max}
use Prim.Native.String.{String}
use text.Mathlib.Text.{◌==◌ as str_eq}
use text.Mathlib.TextEquality.{eq_iff}
use mrc.Prelude.{
  ℕ, ◌+◌, ◌%◌, ◌^◌, ◌≤◌, ◌<◌, ◌≡◌, refl, none, some, [], ◌∷◌, if◌then◌else◌, arith, Option-cases,
  Bool-cases, inl, inr,
}
use mrc.Prelude.Maps.{Map, lookup, assign, IsSorted, assign-IsSorted, lookup-Above}
use mrc.Modules.{TextMap, find, put}
use mrc.Modules.TextMaps.{find-put}
use mrc.Engines.{
  EngineFactoryOptions, Demand, place, set_entry, number, or_zero, count_group, count_groups,
  add_counts, no_demand, min_cpu_count,
}

-- What the groups that do not overlap need together, and the most that one of the others needs.
abbrev pub dedicated : TextMap EngineFactoryOptions → ℕ
dedicated [] = 0
dedicated ((k, o) ∷ m) = (if o.allow_overlap then 0 else o.cpu_count) + dedicated m

abbrev pub shared : TextMap EngineFactoryOptions → ℕ
shared [] = 0
shared ((k, o) ∷ m) = max (if o.allow_overlap then o.cpu_count else 0) (shared m)

abbrev total : Map ℕ → ℕ
total [] = 0
total ((k, c) ∷ m) = c + total m

total-assign :
    (k n : ℕ) (m : Map ℕ) → IsSorted m → total (assign k (or_zero (lookup k m) + n) m) ≡ total m + n
unfolding assign lookup
total-assign k n [] s = omega arith
total-assign k n ((j, c) ∷ m) s = ground (arith, total-assign k n m s.1, lookup-Above k j m s.0)

lookup-total : (k : ℕ) (m : Map ℕ) → or_zero (lookup k m) ≤ total m
unfolding lookup
lookup-total k [] = ground arith
lookup-total k ((j, c) ∷ m) = ground (arith, lookup-total k m)

count_groups_lem :
    (m : TextMap EngineFactoryOptions) (d : Demand)
    → IsSorted d.engine_cpu_count
    → total d.engine_cpu_count + dedicated m < 2 ^ 64
    → let d' = count_groups m d in
      (total d'.engine_cpu_count ≡ total d.engine_cpu_count + dedicated m)
      × (d'.shared_cpu_count ≡ max d.shared_cpu_count (shared m))
unfolding count_groups count_group
count_groups_lem [] d s l = (omega arith, omega arith)
count_groups_lem ((k, o) ∷ m) d s l =
    let v = count_groups_lem m (count_group o d) in
    let kind = number o.engine_type in
    let counts = d.engine_cpu_count in
    elim (Bool-cases o.allow_overlap) [
      | inl y ↦ ground (arith, v, y)
      | inr n ↦
          let old = or_zero (lookup kind counts) in
          let fits : (old + o.cpu_count) % 2 ^ 64 ≡ old + o.cpu_count =
            ground (arith, lookup-total kind counts, n, l) in
          let grown = total-assign kind o.cpu_count counts s in
          let d1 : Demand = record d {
            engine_cpu_count = assign kind (old + o.cpu_count) counts;
          } in
          let same : count_group o d ≡ d1 = rw (count_group, n, fits) refl in
          let (t, most) =
            count_groups_lem m d1 (assign-IsSorted kind (old + o.cpu_count) counts s)
              (ground (arith, grown, l, n)) in
          rw (count_groups, total, same) (ground (arith, t, grown, n), ground (arith, most, n))
    ]

add_counts_lem : (m : Map ℕ) (n : ℕ) → n + total m < 2 ^ 64 → add_counts m n ≡ n + total m
unfolding add_counts
add_counts_lem [] n l = omega arith
add_counts_lem ((k, c) ∷ m) n l = ground (arith, add_counts_lem m ((n + c) % 2 ^ 64))

-- Without an overflow the minimum is the sum of both.
pub min_cpu_count_lem :
    (m : TextMap EngineFactoryOptions)
    → shared m + dedicated m < 2 ^ 64
    → min_cpu_count (count_groups m no_demand) ≡ shared m + dedicated m
unfolding min_cpu_count
min_cpu_count_lem m l =
    let (t, s) = count_groups_lem m no_demand tt (omega arith) in
    ground (
      arith,
      t,
      s,
      add_counts_lem (count_groups m no_demand).engine_cpu_count
          (count_groups m no_demand).shared_cpu_count,
    )

-- No two groups have one name.
abbrev pub Distinct : TextMap EngineFactoryOptions → Type 0
Distinct [] = Unit {0}
Distinct ((k, o) ∷ m) = (find k m ≡ none) × Distinct m

find-place :
    (j k : String) (o : EngineFactoryOptions) (m : TextMap EngineFactoryOptions)
    → find k m ≡ none
    → find j (place k o m) ≡ (if str_eq k j then some o else find j m)
unfolding find place
find-place j k o [] n = ground arith
find-place j k o ((i, w) ∷ m) n =
    ground (arith, eq_iff i k, eq_iff i j, eq_iff k j, find-place j k o m)

pub find-set_entry :
    (j k : String) (o : EngineFactoryOptions) (m : TextMap EngineFactoryOptions)
    → find j (set_entry k o m) ≡ (if str_eq k j then some o else find j m)
unfolding set_entry
find-set_entry j k o m = elim (Option-cases (find k m)) [
  | inl n ↦ rw (set_entry, n) (find-place j k o m n)
  | inr (w, e) ↦ rw (set_entry, e) (find-put j k o m)
]

place-Distinct :
    (k : String) (o : EngineFactoryOptions) (m : TextMap EngineFactoryOptions)
    → find k m ≡ none
    → Distinct m
    → Distinct (place k o m)
unfolding find place
place-Distinct k o [] n d = (refl, tt)
place-Distinct k o ((i, w) ∷ m) n d =
    ground (arith, eq_iff i k, eq_iff k i, find-place i k o m, place-Distinct k o m)

put-Distinct :
    (k : String) (o : EngineFactoryOptions) (m : TextMap EngineFactoryOptions)
    → Distinct m
    → Distinct (put k o m)
unfolding find put
put-Distinct k o [] d = (refl, tt)
put-Distinct k o ((i, w) ∷ m) d =
    ground (arith, eq_iff i k, eq_iff k i, find-put i k o m, put-Distinct k o m)

pub set_entry-Distinct :
    (k : String) (o : EngineFactoryOptions) (m : TextMap EngineFactoryOptions)
    → Distinct m
    → Distinct (set_entry k o m)
unfolding set_entry
set_entry-Distinct k o m d = elim (Option-cases (find k m)) [
  | inl n ↦ rw (set_entry, n) (place-Distinct k o m n d)
  | inr (w, e) ↦ rw (set_entry, e) (put-Distinct k o m d)
]
