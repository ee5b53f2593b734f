-- ===== src/Bitmap/Rounds.antt =====
-- cpp/mrc/src/public/core/bitmap.cpp: the rounds of `RoundRobinCpuSet`.
use mrc.Prelude.{
  ℕ, zero, suc, ◌+◌, ◌-◌, ◌≤◌, ◌<◌, ◌≡◌, refl, sym, ◌∙◌, ap, true, false, Option, none, some, arith,
  Option-cases, ◌⊎◌, inl, inr,
}
use mrc.Bitmap.{after, Hwloc, RoundRobin, next_round}
use mrc.Bitmap.Popping.{one_if, next-exists, weightless}

module _ {B : Type 0} (h : Hwloc B) where
  -- How many bits are set below the index.
  abbrev pub below : ℕ → B → ℕ
  below zero b = 0
  below (suc n) b = below n b + one_if (h.isset n b)

  -- The index of the next round is the number of set bits that the round has passed.
  pub record Counted (r : RoundRobin B) : Type 0 where
    pub counted : after r.index ≡ below (after r.prev) r.bits

  -- The next set bit after the last one, or the first one if there is none.
  abbrev pub Successor : RoundRobin B → ℕ → Type 0
  Successor r i =
      ((after r.prev ≤ i) × ((j : ℕ) → after r.prev ≤ j → j < i → h.isset j r.bits ≡ false))
      ⊎ (((j : ℕ) → after r.prev ≤ j → h.isset j r.bits ≡ false)
          × ((j : ℕ) → j < i → h.isset j r.bits ≡ false))

  below-unset :
      (n m : ℕ) (b : B)
      → ((j : ℕ) → n ≤ j → j < n + m → h.isset j b ≡ false)
      → below (n + m) b ≡ below n b
  below-unset n zero b u = ap (λ k. below k b) (omega arith)
  below-unset n (suc m) b u =
      ap (λ k. below k b) {x = n + suc m} {y = suc (n + m)} (omega arith)
      ∙ ground (arith, below-unset n m b (λ j l l'. u j l (omega arith)), u (n + m))

  abbrev counted_on : RoundRobin B → ℕ → RoundRobin B
  counted_on r i = record r { prev = some i; index = some (after r.index) }

  found :
      (fuel i : ℕ) (r : RoundRobin B)
      → Counted r
      → h.next r.prev r.bits ≡ some i
      → (next_round h (suc fuel) r ≡ some ((below i r.bits, i), counted_on r i))
        × (h.isset i r.bits ≡ true)
        × (after r.prev ≤ i)
        × ((j : ℕ) → after r.prev ≤ j → j < i → h.isset j r.bits ≡ false)
        × Counted (counted_on r i)
  unfolding next_round
  found fuel i r c e =
      let (above, is_set, between) = h.next_some r.prev r.bits i e in
      let passed : below i r.bits ≡ after r.index =
        ap (λ k. below k r.bits) {x = i} {y = after r.prev + (i - after r.prev)}
          (omega (arith, above))
        ∙ below-unset (after r.prev) (i - after r.prev) r.bits (λ j l l'. between j l (omega arith))
        ∙ sym c.counted in
      (
        rw (next_round, e, passed) refl,
        is_set,
        above,
        between,
        record { counted = ground (arith, passed, is_set) },
      )

  -- In a set that is not empty two steps are enough. The round gives a bit that is set: the next one
  -- after the bit of the last round, or the first one when that was the last; with it the number of set
  -- bits below it, if the state has counted them so far, as a new one and a reset one have. It goes on
  -- counting.
  pub next_round_lem :
      (r : RoundRobin B)
      → 0 < h.weight r.bits
      → Counted r
      → (i : ℕ) × (r' : RoundRobin B) × (next_round h 2 r ≡ some ((below i r.bits, i), r'))
        × (h.isset i r.bits ≡ true)
        × Successor r i
        × (r'.bits ≡ r.bits)
        × (r'.prev ≡ some i)
        × Counted r'
  unfolding next_round
  next_round_lem r w c = elim (Option-cases (h.next r.prev r.bits)) [
    | inr (i, e) ↦
        let (out, is_set, above, between, c') = found 1 i r c e in
        (i, counted_on r i, out, is_set, inl (above, between), refl, refl, c')
    | inl n ↦
        let again : RoundRobin B = record r { prev = none; index = none } in
        let (i, e) = next-exists h none r.bits (λ j l. ground (arith, l)) w in
        let (out, is_set, _, before, c') = found 0 i again (record { counted = refl }) e in
        (
          i,
          counted_on again i,
          rw (next_round, n) out,
          is_set,
          inr (h.next_none r.prev r.bits n, λ j l. before j (omega arith) l),
          refl,
          refl,
          c',
        )
  ]

  nothing_next : (p : Option ℕ) (b : B) → h.weight b ≡ 0 → h.next p b ≡ none
  nothing_next p b w = elim (Option-cases (h.next p b)) [
    | inl n ↦ n
    | inr (i, e) ↦
        let (_, is_set, _) = h.next_some p b i e in ground (arith, weightless h i b w, is_set)
  ]

  -- In an empty set the method calls itself for ever: no number of steps is enough.
  pub empty_set_loops :
      (fuel : ℕ) (r : RoundRobin B) → h.weight r.bits ≡ 0 → next_round h fuel r ≡ none
  unfolding next_round
  empty_set_loops zero r w = refl
  empty_set_loops (suc fuel) r w = ground (
    arith,
    empty_set_loops fuel (record r { prev = none; index = none }) w,
    nothing_next r.prev r.bits w,
  )
