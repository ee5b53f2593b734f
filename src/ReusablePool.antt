-- ===== src/ReusablePool.antt =====
-- `ReusablePool` and `Reusable` of cpp/mrc/include/mrc/data/reusable_pool.hpp, over an interface of the
-- buffered channel of boost::fibers, whose capacity is a power of two from 2 on and which holds fewer elements
-- than that. A SharedReusable
-- returns its item as a Reusable does, when the last copy is released. The pool is closed only when
-- nobody holds an item any more, so no push finds it closed.
pub mod Counting
use mrc.Prelude.{
  ℕ, zero, suc, ◌+◌, ◌-◌, ◌<◌, ◌^◌, ◌≡◌, ◌≢◌, Bool, true, false, Option, none, some, List, [], ◌∷◌,
  ◌++◌, ltb, length, if◌then◌else◌,
}

-- A push on a full channel and a pop on an empty one wait: `none`. The channel's constructor throws on
-- other capacities: `none`.
pub record Channel (A C : Type 0) : Type 0 where
  pub create : ℕ → Option C
  pub push : A → C → Option C
  pub pop : C → Option (A × C)
  pub capacity : C → ℕ
  pub elements : C → List A
  pub elements-create :
      (k : ℕ)
      → (c : C) × (create (2 ^ suc k) ≡ some c) × (elements c ≡ []) × (capacity c ≡ 2 ^ suc k)
  pub create_refused : (n : ℕ) → ((k : ℕ) → n ≢ 2 ^ suc k) → create n ≡ none
  pub push_room :
      (a : A) (c : C)
      → length (elements c) + 1 < capacity c
      → (c' : C) × (push a c ≡ some c')
        × (elements c' ≡ elements c ++ (a ∷ []))
        × (capacity c' ≡ capacity c)
  pub pop_empty : (c : C) → elements c ≡ [] → pop c ≡ none
  pub pop_first :
      (a : A) (l : List A) (c : C)
      → elements c ≡ a ∷ l
      → (c' : C) × (pop c ≡ some (a, c')) × (elements c' ≡ l) × (capacity c' ≡ capacity c)

-- The pool, and the items that callers hold.
pub record Pool (A C : Type 0) : Type 0 where
  pub size : ℕ
  pub capacity : ℕ
  pub channel : C
  pub held : List A

-- `waits` and `blocks` are a pop and a push that have to wait; `null` is the release of what holds no
-- item.
pub data Outcome : Type 0 where
  done length_error waits blocks null : Outcome

pub data Step (A : Type 0) : Type 0 where
  adds : A → Step A
  awaits : Step A
  releases : ℕ → Step A

-- The k-th of the held items, and the others.
unfoldable pub take_held : {A : Type 0} → ℕ → List A → Option (A × List A)
take_held k [] = none
take_held zero (a ∷ l) = some (a, l)
take_held (suc k) (a ∷ l) = elim (take_held k l) [
  | none ↦ none
  | some (b, rest) ↦ some (b, a ∷ rest)
]

module _ {A C : Type 0} (ch : Channel A C) where
  -- `none` is what the channel's constructor throws.
  unfoldable pub create : ℕ → Option (Pool A C)
  create capacity = elim (ch.create capacity) [
    | none ↦ none
    | some c ↦ some (record { size = 0; capacity = capacity; channel = c; held = [] })
  ]

  unfoldable pub add_item : A → Pool A C → Outcome × Pool A C
  add_item item p =
      if ltb (p.size + 1) p.capacity
      then elim (ch.push item p.channel) [
        | none ↦ (blocks, p)
        | some c ↦ (done, record p { channel = c; size = p.size + 1 })
      ]
      else (length_error, p)

  unfoldable pub await_item : Pool A C → Outcome × Pool A C
  await_item p = elim (ch.pop p.channel) [
    | none ↦ (waits, p)
    | some (item, c) ↦ (done, record p { channel = c; held = item ∷ p.held })
  ]

  -- With what the pool does to an item that is returned.
  unfoldable pub return_item : (A → A) → A → Pool A C → Outcome × Pool A C
  return_item on_return item p = elim (ch.push (on_return item) p.channel) [
    | none ↦ (blocks, p)
    | some c ↦ (done, record p { channel = c })
  ]

  unfoldable pub release : (A → A) → ℕ → Pool A C → Outcome × Pool A C
  unfolding take_held return_item
  release on_return k p = elim (take_held k p.held) [
    | none ↦ (null, p)
    | some (item, rest) ↦ return_item on_return item (record p { held = rest })
  ]

  unfoldable pub step : (A → A) → Step A → Pool A C → Outcome × Pool A C
  unfolding add_item await_item release
  step on_return (adds item) p = add_item item p
  step on_return awaits p = await_item p
  step on_return (releases k) p = release on_return k p

  -- The outcomes of the steps, and the pool afterwards.
  unfoldable pub run : (A → A) → List (Step A) → Pool A C → List Outcome × Pool A C
  unfolding step
  run on_return [] p = ([], p)
  run on_return (x ∷ xs) p =
      let (o, q) = step on_return x p in let (os, r) = run on_return xs q in (o ∷ os, r)
