-- ===== src/Examples/Pools.antt =====
-- A pool of numbers over a channel that is a list.
use mrc.Prelude.{
  zero, suc, ◌^◌, Bool, true, false, ◌||◌, Bool-cases, inl, inr, ℕ, ◌+◌, ◌<◌, ◌≡◌, ◌≢◌, refl,
  Option, none, some, List, [], ◌∷◌, ◌++◌, ltb, ◌==◌, length, All, if◌then◌else◌, arith,
}
use mrc.ReusablePool.{
  Channel, Pool, blocks, waits, done, Step, adds, awaits, releases, create, run, await_item,
}
use mrc.ReusablePool.Counting.{run-create}

unfoldable push_back : ℕ → ℕ × List ℕ → Option (ℕ × List ℕ)
push_back a (n, l) = if ltb (length l + 1) n then some (n, l ++ (a ∷ [])) else none

unfoldable pop_front : ℕ × List ℕ → Option (ℕ × (ℕ × List ℕ))
pop_front (n, []) = none
pop_front (n, a ∷ l) = some (a, (n, l))

push_room_lem :
    (a : ℕ) (c : ℕ × List ℕ)
    → length c.1 + 1 < c.0
    → (c' : ℕ × List ℕ) × (push_back a c ≡ some c') × (c'.1 ≡ c.1 ++ (a ∷ [])) × (c'.0 ≡ c.0)
unfolding push_back
push_room_lem a (n, l) h = ((n, l ++ (a ∷ [])), ground (arith, h), refl, refl)

pop_empty_lem : (c : ℕ × List ℕ) → c.1 ≡ [] → pop_front c ≡ none
unfolding pop_front
pop_empty_lem (n, []) e = refl
pop_empty_lem (n, a ∷ l) e = cc

pop_first_lem :
    (a : ℕ) (l : List ℕ) (c : ℕ × List ℕ)
    → c.1 ≡ a ∷ l
    → (c' : ℕ × List ℕ) × (pop_front c ≡ some (a, c')) × (c'.1 ≡ l) × (c'.0 ≡ c.0)
unfolding pop_front
pop_first_lem a l (n, []) e = cc
pop_first_lem a l (n, b ∷ m) e = ((n, l), ground (arith, e), refl, refl)

-- The exponent is searched below the capacity.
unfoldable is_power : ℕ → ℕ → Bool
is_power zero n = false
is_power (suc i) n = (n == 2 ^ suc i) || is_power i n

power-found : (i k : ℕ) → k < i → is_power i (2 ^ suc k) ≡ true
unfolding is_power
power-found zero k l = absurd (omega arith)
power-found (suc i) k l = elim (Bool-cases (k == i)) [
  | inl y ↦ let e : k ≡ i = ground (arith, y) in rw e (ground arith)
  | inr n ↦ ground (arith, power-found i k (ground (arith, l, n)))
]

below-power : (k : ℕ) → k < 2 ^ suc k
below-power zero = omega arith
below-power (suc k) = omega (arith, below-power k)

not_power : (i n : ℕ) → ((k : ℕ) → n ≢ 2 ^ suc k) → is_power i n ≡ false
unfolding is_power
not_power zero n w = refl
not_power (suc i) n w = ground (arith, w i, not_power i n w)

unfoldable new_queue : ℕ → Option (ℕ × List ℕ)
unfolding is_power
new_queue n = if is_power n n then some (n, []) else none

new_queue_lem :
    (k : ℕ) → (c : ℕ × List ℕ) × (new_queue (2 ^ suc k) ≡ some c) × (c.1 ≡ []) × (c.0 ≡ 2 ^ suc k)
unfolding new_queue
new_queue_lem k =
    ((2 ^ suc k, []), rw (power-found (2 ^ suc k) k (below-power k), new_queue) refl, refl, refl)

new_queue_refused : (n : ℕ) → ((k : ℕ) → n ≢ 2 ^ suc k) → new_queue n ≡ none
unfolding new_queue
new_queue_refused n w = rw (not_power n n w, new_queue) refl

abbrev queue : Channel ℕ (ℕ × List ℕ)
queue = record {
  create = new_queue;
  push = push_back;
  pop = pop_front;
  capacity = λ c. c.0;
  elements = λ c. c.1;
  elements-create = new_queue_lem;
  create_refused = new_queue_refused;
  push_room = push_room_lem;
  pop_empty = pop_empty_lem;
  pop_first = pop_first_lem;
}

-- A returned item is reset to 0.
abbrev on_return : ℕ → ℕ
on_return a = 0

-- The fourth item exceeds the capacity, the last request has to wait.
abbrev steps : List (Step ℕ)
steps =
    adds 1 ∷ adds 2 ∷ adds 3 ∷ adds 4 ∷ awaits ∷ awaits ∷ releases 0 ∷ awaits ∷ awaits ∷ awaits ∷ []

three-odd : (j : ℕ) → 3 ≢ 2 ^ suc j
three-odd j e = omega arith

run-create_example :
    (create queue 3 ≡ none)
    × (new : Pool ℕ (ℕ × List ℕ)) × (create queue (2 ^ 2) ≡ some new)
    × (let (os, p) = run queue on_return steps new in
        All (λ o. o ≢ blocks) os
        × (length (queue.elements p.channel) + length p.held ≡ p.size)
        × (p.size < 2 ^ 2)
        × ((await_item queue p).0 ≡ (if length p.held == p.size then waits else done)))
run-create_example = run-create queue 1 3 on_return steps three-odd
