-- ===== src/Bitmap.antt =====
-- `Bitmap` and `RoundRobinCpuSet` of cpp/mrc/src/public/core/bitmap.cpp, over the bitmaps of the hwloc
-- library, which are a parameter: its functions with what its documentation says of them. The index -1
-- of the library is `none`. The bitmaps are finite, so that their weight is a number.
pub mod Popping
pub mod Splitting
pub mod Rounds
use mrc.Prelude.{
  ℕ, zero, suc, ◌+◌, ◌-◌, ◌/◌, ◌%◌, ◌^◌, ◌≤◌, ◌<◌, ◌≡◌, Bool, true, false, Option, none, some, List,
  [], ◌∷◌, ltb, leb, ◌==◌, if◌then◌else◌,
}

-- The least index that is greater.
abbrev pub after : Option ℕ → ℕ
after none = 0
after (some i) = suc i

pub record Hwloc (B : Type 0) : Type 0 where
  pub alloc : B
  pub set : ℕ → B → B
  pub clr : ℕ → B → B
  pub isset : ℕ → B → Bool
  pub next : Option ℕ → B → Option ℕ
  pub weight : B → ℕ
  pub isset-alloc : (j : ℕ) → isset j alloc ≡ false
  pub isset-set : (j i : ℕ) (b : B) → isset j (set i b) ≡ (if i == j then true else isset j b)
  pub isset-clr : (j i : ℕ) (b : B) → isset j (clr i b) ≡ (if i == j then false else isset j b)
  pub next_some :
      (p : Option ℕ) (b : B) (i : ℕ)
      → next p b ≡ some i
      → (after p ≤ i) × (isset i b ≡ true) × ((j : ℕ) → after p ≤ j → j < i → isset j b ≡ false)
  pub next_none :
      (p : Option ℕ) (b : B) → next p b ≡ none → (j : ℕ) → after p ≤ j → isset j b ≡ false
  pub weight-clr : (i : ℕ) (b : B) → isset i b ≡ true → suc (weight (clr i b)) ≡ weight b
  pub weight-set : (i : ℕ) (b : B) → isset i b ≡ false → weight (set i b) ≡ suc (weight b)
  pub weight_zero : (b : B) → ((j : ℕ) → isset j b ≡ false) → weight b ≡ 0

-- The conversion of an index of the library to std::uint32_t.
unfoldable pub index : Option ℕ → ℕ
index none = 2 ^ 32 - 1
index (some i) = i

module _ {B : Type 0} (h : Hwloc B) where
  unfoldable pub on : ℕ → B → B
  on id b = h.set id b

  unfoldable pub off : ℕ → B → B
  off id b = h.clr id b

  unfoldable pub next : Option ℕ → B → Option ℕ
  next prev b = h.next prev b

  unfoldable pub first : B → ℕ
  unfolding index next
  first b = index (next none b)

  -- The steps of the loop of `for_each_bit` from the i-th on.
  unfoldable pub each_from : {S : Type 0} → (ℕ → ℕ → S → S) → ℕ → ℕ → Option ℕ → B → S → S
  unfolding index next
  each_from lambda zero i prev b s = s
  each_from lambda (suc n) i prev b s =
      let p = next prev b in each_from lambda n (suc i) p b (lambda i (index p) s)

  -- `lambda` changes the state that it captures.
  unfoldable pub for_each_bit : {S : Type 0} → (ℕ → ℕ → S → S) → B → S → S
  unfolding each_from
  for_each_bit lambda b s = each_from lambda (h.weight b) 0 none b s

  unfoldable pub append : B → B → B
  unfolding for_each_bit on
  append other b = for_each_bit (λ idx bit c. on bit c) other b

  -- The loop of `pop`, with the bits that it has moved.
  unfoldable pub pop_loop : ℕ → Option ℕ → B → B → B × B
  unfolding next on off index
  pop_loop zero prev rv b = (rv, b)
  pop_loop (suc n) prev rv b =
      let p = next prev b in pop_loop n p (on (index p) rv) (off (index p) b)

  -- The bits that are popped, and the bitmap afterwards; `none` is a failed check.
  unfoldable pub pop : ℕ → B → Option (B × B)
  unfolding pop_loop
  pop nbits b = if leb nbits (h.weight b) then some (pop_loop nbits none h.alloc b) else none

  -- The loop of `split` over the ways that are left, of which the first has the index i.
  unfoldable pub split_loop : ℕ → ℕ → ℕ → ℕ → B → Option (List B)
  unfolding pop
  split_loop div rem zero i copy = some []
  split_loop div rem (suc ways) i copy =
      let count = div + (if ltb i rem then 1 else 0) in
      let rest : B → Option (List B) = λ c. split_loop div rem ways (suc i) c in
      if count == 0
      then elim (rest copy) [ none ↦ none | some v ↦ some (h.alloc ∷ v) ]
      else elim (pop count copy) [
        | none ↦ none
        | some (piece, c) ↦ elim (rest c) [ none ↦ none | some v ↦ some (piece ∷ v) ]
      ]

  unfoldable pub split : ℕ → B → Option (List B)
  unfolding split_loop
  split nways b =
      if nways == 0 then none else split_loop (h.weight b / nways) (h.weight b % nways) nways 0 b

-- The index of the last round is `none` before the first.
pub record RoundRobin (B : Type 0) : Type 0 where
  pub bits : B
  pub prev : Option ℕ
  pub index : Option ℕ

module _ {B : Type 0} (h : Hwloc B) where
  unfoldable pub round_robin : B → RoundRobin B
  round_robin b = record { bits = b; prev = none; index = none }

  -- The method calls itself when it reaches the end of the set, at most as often as the fuel says.
  unfoldable pub next_round : ℕ → RoundRobin B → Option ((ℕ × ℕ) × RoundRobin B)
  next_round zero r = none
  next_round (suc fuel) r =
      let restarted = next_round fuel (record r { prev = none; index = none }) in
      elim (h.next r.prev r.bits) [
        | none ↦ restarted
        | some id ↦
            some ((after r.index, id), record r { prev = some id; index = some (after r.index) })
      ]

  unfoldable pub reset : RoundRobin B → RoundRobin B
  reset r = record r { prev = none; index = none }
