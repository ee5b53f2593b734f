-- ===== src/ReusablePool/Counting.antt =====
-- cpp/mrc/include/mrc/data/reusable_pool.hpp: the items of a pool are counted, so that no push blocks.
use mrc.Prelude.{
  ℕ, zero, suc, ◌+◌, ◌-◌, ◌≤◌, ◌<◌, ◌^◌, none, ◌≡◌, ◌≢◌, ◌⊎◌, refl, some, List, [], ◌∷◌, ltb,
  length, length-append, All, ◌==◌, if◌then◌else◌, arith, Option-cases, Bool-cases, inl, inr,
}
use mrc.ReusablePool.{
  Channel, Pool, Outcome, done, waits, blocks, Step, adds, awaits, releases, take_held, create,
  add_item, await_item, return_item, release, step, run,
}

List-cases : {A : Type 0} (l : List A) → (l ≡ []) ⊎ ((a : A) × (m : List A) × (l ≡ a ∷ m))
List-cases [] = inl refl
List-cases (a ∷ m) = inr (a, m, refl)

length-take_held :
    {A : Type 0} (k : ℕ) (l : List A) (a : A) (rest : List A)
    → take_held k l ≡ some (a, rest)
    → length l ≡ suc (length rest)
unfolding take_held
length-take_held k [] a rest e = cc
length-take_held zero (b ∷ l) a rest e = ground (arith, e)
length-take_held (suc k) (b ∷ l) a rest e = elim (Option-cases (take_held k l)) [
  | inl n ↦ ground (arith, e, n)
  | inr ((c, m), f) ↦ ground (arith, e, f, length-take_held k l c m f)
]

module _ {A C : Type 0} (ch : Channel A C) (n : ℕ) where
  -- The managed items are those in the channel and those that are held, and fewer than the capacity.
  pub record Counted (p : Pool A C) : Type 0 where
    pub counted : length (ch.elements p.channel) + length p.held ≡ p.size
    pub bounded : p.size ≤ n - 1
    pub fixed : p.capacity ≡ n
    pub same_capacity : ch.capacity p.channel ≡ p.capacity

  -- What a step may come to: it does not block, and the items stay counted.
  abbrev pub Fine : Outcome × Pool A C → Type 0
  Fine (o, p) = (o ≢ blocks) × Counted p

  add_item-Fine : (a : A) (p : Pool A C) → Counted p → Fine (add_item ch a p)
  unfolding add_item
  add_item-Fine a p v = elim (Bool-cases (ltb (p.size + 1) p.capacity)) [
    | inr o ↦ rw (o, add_item) (λ e. cc, v)
    | inl y ↦
        let (c, e, el, cap) =
          ch.push_room a p.channel (ground (arith, v.counted, v.same_capacity, y)) in
        rw (y, e, add_item)
          (
            λ q. cc,
            record {
              counted =
                  ground (arith, el, length-append (ch.elements p.channel) (a ∷ []), v.counted);
              bounded = ground (arith, y, v.fixed);
              fixed = v.fixed;
              same_capacity = ground (arith, cap, v.same_capacity);
            },
          )
  ]

  -- A pop waits just if all items are held.
  await_item-Fine :
      (p : Pool A C)
      → Counted p
      → Fine (await_item ch p)
        × ((await_item ch p).0 ≡ (if length p.held == p.size then waits else done))
  unfolding await_item
  await_item-Fine p v = elim (List-cases (ch.elements p.channel)) [
    | inl e ↦ rw (ch.pop_empty p.channel e, await_item) ((λ q. cc, v), ground (arith, v.counted, e))
    | inr (a, l, e) ↦
        let (c, out, el, cap) = ch.pop_first a l p.channel e in
        rw (out, await_item)
          (
            (
              λ q. cc,
              record {
                counted = ground (arith, el, e, v.counted);
                bounded = v.bounded;
                fixed = v.fixed;
                same_capacity = ground (arith, cap, v.same_capacity);
              },
            ),
            ground (arith, v.counted, e),
          )
  ]

  release-Fine : (f : A → A) (k : ℕ) (p : Pool A C) → Counted p → Fine (release ch f k p)
  unfolding release return_item
  release-Fine f k p v = elim (Option-cases (take_held k p.held)) [
    | inl o ↦ rw (o, release) (λ q. cc, v)
    | inr ((a, rest), e) ↦
        let fewer = length-take_held k p.held a rest e in
        let (c, out, el, cap) =
          ch.push_room (f a) p.channel
            (ground (arith, v.counted, v.bounded, v.same_capacity, v.fixed, fewer)) in
        rw (e, out, release, return_item)
          (
            λ q. cc,
            record {
              counted =
                  ground
                    (arith, el, length-append (ch.elements p.channel) (f a ∷ []), v.counted, fewer);
              bounded = v.bounded;
              fixed = v.fixed;
              same_capacity = ground (arith, cap, v.same_capacity);
            },
          )
  ]

  step-Fine : (f : A → A) (x : Step A) (p : Pool A C) → Counted p → Fine (step ch f x p)
  unfolding step
  step-Fine f (adds a) p v = add_item-Fine a p v
  step-Fine f awaits p v = (await_item-Fine p v).0
  step-Fine f (releases k) p v = release-Fine f k p v

  run-Counted :
      (f : A → A) (xs : List (Step A)) (p : Pool A C)
      → Counted p
      → let (os, q) = run ch f xs p in All (λ o. o ≢ blocks) os × Counted q
  unfolding run
  run-Counted f [] p v = (tt, v)
  run-Counted f (x ∷ xs) p v =
      let (good, w) = step-Fine f x p v in
      let (all, z) = run-Counted f xs (step ch f x p).1 w in ((good, all), z)

power_pos : (k : ℕ) → 0 < 2 ^ suc k
power_pos zero = omega arith
power_pos (suc k) = omega (arith, power_pos k)

-- A pool is made just if its capacity is a power of two from 2 on: else the constructor of its channel throws.
-- In any history of a new pool of capacity n no item is ever pushed on a full channel, so adding and returning
-- an item never block. At its end the items in the channel and the held ones are as many as the pool
-- manages, fewer than the capacity, and a caller who asks for an item has to wait just if all of them are
-- held.
pub run-create :
    {A C : Type 0} (ch : Channel A C) (k bad : ℕ) (f : A → A) (xs : List (Step A))
    → ((j : ℕ) → bad ≢ 2 ^ suc j)
    → (create ch bad ≡ none)
      × (new : Pool A C) × (create ch (2 ^ suc k) ≡ some new)
      × (let (os, p) = run ch f xs new in
          All (λ o. o ≢ blocks) os
          × (length (ch.elements p.channel) + length p.held ≡ p.size)
          × (p.size < 2 ^ suc k)
          × ((await_item ch p).0 ≡ (if length p.held == p.size then waits else done)))
unfolding create
run-create ch k bad f xs wrong =
    let (c, made, none_yet, cap) = ch.elements-create k in
    let new : Pool _ _ = record { size = 0; capacity = 2 ^ suc k; channel = c; held = [] } in
    let (all, v) = run-Counted ch (2 ^ suc k) f xs new (record {
      counted = ground (arith, none_yet);
      bounded = omega arith;
      fixed = refl;
      same_capacity = cap;
    }) in
    (
      rw (ch.create_refused bad wrong, create) refl,
      new,
      rw (made, create) refl,
      (
        all,
        v.counted,
        omega (arith, v.bounded, power_pos k),
        (await_item-Fine ch (2 ^ suc k) (run ch f xs new).1 v).1,
      ),
    )
