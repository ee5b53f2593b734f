-- ===== src/Engines/Factories/SingleUse.antt =====
-- cpp/mrc/src/internal/runnable/engine_factory.cpp: the factories that hand each CPU out once.
use mrc.Prelude.{
  ℕ, zero, suc, ◌+◌, ◌%◌, ◌^◌, ◌≤◌, ◌<◌, ◌≡◌, refl, sym, ap, ◌∙◌, true, false, Option, none, some,
  List, [], ◌∷◌, All, map, length, ltb, leb, if◌then◌else◌, arith, Option-cases, Bool-cases, inl,
  inr,
}
use mrc.Bitmap.{after, Hwloc, on, next}
use mrc.Bitmap.Popping.{one_if, Moved}
use mrc.Engines.Factories.{
  FiberFactory, ThreadFactory, task_queue, queues_from, single_use_queues, single_use_cpus_loop,
  single_use_cpus,
}

abbrev pub first_of : ℕ → List ℕ → List ℕ
first_of zero qs = []
first_of (suc n) [] = []
first_of (suc n) (q ∷ qs) = q ∷ first_of n qs

-- The results of launches in a row on so many processing elements each.
unfoldable pub launch_each : List ℕ → FiberFactory → List (Option (List ℕ))
unfolding single_use_queues
launch_each [] f = []
launch_each (n ∷ ns) f = (single_use_queues n f).0 ∷ launch_each ns (single_use_queues n f).1

queues_from-suc :
    (count i q : ℕ) (pool : List ℕ)
    → queues_from count (suc i) (q ∷ pool) ≡ queues_from count i pool
unfolding queues_from task_queue
queues_from-suc zero i q pool = refl
queues_from-suc (suc count) i q pool = elim (Option-cases (task_queue i pool)) [
  | inl n ↦ rw (queues_from, n) refl
  | inr (x, e) ↦ rw (queues_from, e, queues_from-suc count (suc i) q pool) refl
]

queues_from_lem :
    (count : ℕ) (pool : List ℕ)
    → count ≤ length pool
    → queues_from count 0 pool ≡ some (first_of count pool)
unfolding queues_from task_queue
queues_from_lem zero pool l = refl
queues_from_lem (suc count) [] l = absurd (omega arith)
queues_from_lem (suc count) (q ∷ pool) l =
    rw (queues_from, queues_from-suc count 0 q pool, queues_from_lem count pool (omega arith)) refl

-- A factory of fibers for a single use does not advance: in any series of launches on fewer than 2^64
-- elements each, one that asks for more queues than the pool has fails, and every other one gets the
-- first queues of the pool, as those before it did.
pub launch_each_lem :
    (ns pool : List ℕ)
    → All (λ n. n < 2 ^ 64) ns
    → launch_each ns (record { pool = pool; offset = 0 })
      ≡ map (λ n. if ltb (length pool) n then none else some (first_of n pool)) ns
unfolding launch_each single_use_queues
launch_each_lem [] pool l = refl
launch_each_lem (n ∷ ns) pool (l, ls) =
    let rest = launch_each_lem ns pool ls in
    let same : (0 + n) % 2 ^ 64 ≡ n = omega (arith, l) in
    elim (Bool-cases (ltb (length pool) n)) [
      | inl y ↦ rw (launch_each, single_use_queues, same, y, rest) refl
      | inr m ↦
          rw
            (
              launch_each,
              single_use_queues,
              same,
              m,
              rest,
              queues_from_lem n pool (ground (arith, m)),
            )
            refl
    ]

module _ {B : Type 0} (h : Hwloc B) where
  -- The sets of launches in a row on so many processing elements each, if none of them fails.
  unfoldable pub take_each : List ℕ → ThreadFactory B → Option (List B)
  unfolding single_use_cpus
  take_each [] f = some []
  take_each (n ∷ ns) f =
      let rest = take_each ns (single_use_cpus h n f).1 in
      elim (single_use_cpus h n f).0 [
        | none ↦ none
        | some s ↦ elim rest [ none ↦ none | some ss ↦ some (s ∷ ss) ]
      ]

  -- In how many of the sets the bit is.
  abbrev pub takers : ℕ → List B → ℕ
  takers j [] = 0
  takers j (s ∷ ss) = one_if (h.isset j s) + takers j ss

  abbrev pub Weights : List ℕ → List B → Type 0
  Weights [] [] = Unit {0}
  Weights (n ∷ ns) (s ∷ ss) = (h.weight s ≡ n) × Weights ns ss
  Weights _ _ = ⊥

  restarts :
      (count : ℕ) (s : B) (f : ThreadFactory B)
      → (single_use_cpus_loop h count s f).0 ≡ none
      → (single_use_cpus_loop h count s f).1 ≡ record f { prev_cpu_idx = none }
  unfolding single_use_cpus_loop on next
  restarts zero s f e = ground (arith, e)
  restarts (suc count) s f e = elim (Option-cases (h.next f.prev_cpu_idx f.cpu_set)) [
    | inl n ↦ rw (single_use_cpus_loop, n) refl
    | inr (i, k) ↦
        let g : ThreadFactory B = record f { prev_cpu_idx = some i } in
        let step : single_use_cpus_loop h (suc count) s f
            ≡ single_use_cpus_loop h count (h.set i s) g =
          rw (single_use_cpus_loop, k) refl in
        ap (λ r. r.1) step ∙ restarts count (h.set i s) g (sym (ap (λ r. r.0) step) ∙ e)
  ]

  -- When a launch of threads for a single use fails as the CPUs are exhausted, the next one gets what the
  -- first launch of a new factory would get.
  pub exhausted-restarts :
      (count n : ℕ) (f : ThreadFactory B)
      → (single_use_cpus h count f).0 ≡ none
      → single_use_cpus h n (single_use_cpus h count f).1
        ≡ single_use_cpus h n (record { cpu_set = f.cpu_set; prev_cpu_idx = none })
  unfolding single_use_cpus
  exhausted-restarts count n f e = ap (λ g. single_use_cpus h n g) (restarts count h.alloc f e)

  -- The bits that the factory has not reached.
  abbrev Left : ThreadFactory B → B → Type 0
  Left f c =
      (j : ℕ) → h.isset j c ≡ (if leb (after f.prev_cpu_idx) j then h.isset j f.cpu_set else false)

  next-Left :
      (f : ThreadFactory B) (c : B)
      → Left f c
      → 0 < h.weight c
      → (i : ℕ) × (h.next f.prev_cpu_idx f.cpu_set ≡ some i)
        × (h.isset i c ≡ true)
        × Left (record f { prev_cpu_idx = some i }) (h.clr i c)
  next-Left f c v w = elim (Option-cases (h.next f.prev_cpu_idx f.cpu_set)) [
    | inl n ↦
        let unset : (j : ℕ) → h.isset j c ≡ false = λ j.
          elim (Bool-cases (leb (after f.prev_cpu_idx) j)) [
            | inl y ↦ ground (arith, v j, y, h.next_none f.prev_cpu_idx f.cpu_set n j)
            | inr o ↦ ground (arith, v j, o)
          ] in
        absurd (omega (arith, h.weight_zero c unset, w))
    | inr (i, e) ↦
        let (above, is_set, between) = h.next_some f.prev_cpu_idx f.cpu_set i e in
        (
          i,
          e,
          ground (arith, v i, above, is_set),
          λ j. ground (arith, v j, h.isset-clr j i c, above, between j),
        )
  ]

  loop-Moved :
      (count : ℕ) (s c : B) (f : ThreadFactory B)
      → Left f c
      → count ≤ h.weight c
      → ((j : ℕ) → one_if (h.isset j s) + one_if (h.isset j c) ≤ 1)
      → (s' : B) × (c' : B) × (f' : ThreadFactory B) × (single_use_cpus_loop h count s f
          ≡ (some s', f'))
        × Left f' c'
        × Moved h count s c s' c'
  unfolding single_use_cpus_loop on next
  loop-Moved zero s c f v l d =
      (s, c, f, refl, v, record { each = λ j. refl; gained = omega arith; lost = omega arith })
  loop-Moved (suc count) s c f v l d =
      let (i, e, is_set, v1) = next-Left f c v (omega (arith, l)) in
      let w = h.weight-clr i c is_set in
      let unset : h.isset i s ≡ false = ground (arith, d i, is_set) in
      let both : (j : ℕ)
          → one_if (h.isset j (h.set i s)) + one_if (h.isset j (h.clr i c))
            ≡ one_if (h.isset j s) + one_if (h.isset j c) =
        λ j. ground (arith, h.isset-set j i s, h.isset-clr j i c, is_set, unset) in
      let (s', c', f', out, v', p) =
        loop-Moved count (h.set i s) (h.clr i c) (record f { prev_cpu_idx = some i }) v1
          (omega (arith, w, l)) (λ j. ground (arith, both j, d j)) in
      (
        s',
        c',
        f',
        rw (single_use_cpus_loop, e) out,
        v',
        record {
          each = λ j. ground (arith, p.each j, both j);
          gained = ground (arith, p.gained, h.weight-set i s unset);
          lost = ground (arith, p.lost, w);
        },
      )

  abbrev pub total : List ℕ → ℕ
  total [] = 0
  total (n ∷ ns) = n + total ns

  take_cons :
      (n : ℕ) (ns : List ℕ) (f f' : ThreadFactory B) (s : B) (ss : List B)
      → single_use_cpus h n f ≡ (some s, f')
      → take_each ns f' ≡ some ss
      → take_each (n ∷ ns) f ≡ some (s ∷ ss)
  unfolding take_each
  take_cons n ns f f' s ss e r = rw (take_each, ap (λ x. x.0) e, ap (λ x. x.1) e, r) refl

  take-Left :
      (ns : List ℕ) (f : ThreadFactory B) (c : B)
      → Left f c
      → total ns ≤ h.weight c
      → (ss : List B) × (take_each ns f ≡ some ss)
        × Weights ns ss
        × ((j : ℕ) → takers j ss ≤ one_if (h.isset j c))
  unfolding take_each single_use_cpus
  take-Left [] f c v l = ([], refl, tt, λ j. omega arith)
  take-Left (n ∷ ns) f c v l =
      let (s, c', f', out, v', p) =
        loop-Moved n h.alloc c f v (omega (arith, l)) (λ j. ground (arith, h.isset-alloc j)) in
      let (ss, each, w, t) = take-Left ns f' c' v' (omega (arith, p.lost, l)) in
      (
        s ∷ ss,
        take_cons n ns f f' s ss out each,
        (ground (arith, p.gained, h.weight_zero h.alloc (λ i. h.isset-alloc i)), w),
        λ j. ground (arith, t j, p.each j, h.isset-alloc j),
      )

  -- As long as the launches of threads from a new factory for a single use ask for no more CPUs together
  -- than its set has, they all succeed, and each gets as many CPUs as it asks for, all from the set and
  -- none twice.
  pub take_each_lem :
      (ns : List ℕ) (cpu_set : B)
      → total ns ≤ h.weight cpu_set
      → (ss : List B) × (take_each ns (record { cpu_set = cpu_set; prev_cpu_idx = none }) ≡ some ss)
        × Weights ns ss
        × ((j : ℕ) → takers j ss ≤ one_if (h.isset j cpu_set))
  take_each_lem ns cpu_set l =
      take-Left ns (record { cpu_set = cpu_set; prev_cpu_idx = none }) cpu_set (λ j. ground arith) l
