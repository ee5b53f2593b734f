-- ===== src/Ranges.antt =====
-- `find_ranges` of cpp/mrc/src/internal/utils/ranges.hpp. `std::sort` is a parameter.
use mrc.Prelude.{
  ℕ, zero, suc, ◌+◌, ◌-◌, ◌≤◌, ◌≡◌, refl, ap, ◌∙◌, sym, List, [], ◌∷◌, ◌++◌, length, ◌==◌,
  if◌then◌else◌, arith, Bool-cases, inl, inr,
}

-- The sum of the times that the value occurs.
abbrev pub count : ℕ → List ℕ → ℕ
count n [] = 0
count n (k ∷ ks) = (if k == n then 1 else 0) + count n ks

-- `std::sort` only reorders.
pub record Sorting : Type 0 where
  pub sort : List ℕ → List ℕ
  pub same_elements : (n : ℕ) (l : List ℕ) → count n (sort l) ≡ count n l

-- The inner loop: the last of the consecutive values, of which the next would be `k`, and the rest.
unfoldable pub extend : ℕ → ℕ → List ℕ → ℕ × List ℕ
extend k high [] = (high, [])
extend k high (x ∷ l) =
    let further = extend (suc k) x l in if k == x then further else (high, x ∷ l)

-- The outer loop, with fuel; every turn takes a value at least.
unfoldable pub ranges : ℕ → List ℕ → List (ℕ × ℕ)
unfolding extend
ranges fuel [] = []
ranges zero (low ∷ l) = []
ranges (suc fuel) (low ∷ l) =
    let (high, rest) = extend low low (low ∷ l) in (low, high) ∷ ranges fuel rest

unfoldable pub find_ranges : Sorting → List ℕ → List (ℕ × ℕ)
unfolding ranges
find_ranges std values = let copy = std.sort values in ranges (length copy) copy

-- The n values from the first on.
abbrev pub consecutive : ℕ → ℕ → List ℕ
consecutive low zero = []
consecutive low (suc n) = low ∷ consecutive (suc low) n

abbrev pub members : List (ℕ × ℕ) → List ℕ
members [] = []
members ((low, high) ∷ rs) = consecutive low (suc high - low) ++ members rs

-- What `extend` takes are consecutive values.
extended :
    (k high : ℕ) (l : List ℕ)
    → high + 1 ≡ k
    → let (high', rest) = extend k high l in
      (consecutive k (high' - high) ++ rest ≡ l) × (high ≤ high') × (length rest ≤ length l)
unfolding extend
extended k high [] e = (
  ap (λ j. consecutive k j ++ []) {x = high - high} {y = 0} (omega arith),
  omega arith,
  omega arith,
)
extended k high (x ∷ l) e = elim (Bool-cases (k == x)) [
  | inl y ↦
      let same : x ≡ k = ground (arith, y) in
      let (all, above, short) = extended (suc k) x l (omega (arith, same)) in
      let high' = (extend (suc k) x l).0 in
      let rest = (extend (suc k) x l).1 in
      let head : x ∷ (consecutive (suc k) (high' - x) ++ rest) ≡ x ∷ l = ap (λ t. x ∷ t) all in
      let more : consecutive k (high' - high) ++ rest
          ≡ k ∷ (consecutive (suc k) (high' - x) ++ rest) =
        ap (λ j. consecutive k j ++ rest) {x = high' - high} {y = suc (high' - x)}
          (omega (arith, same, above, e)) in
      rw (extend, y)
        (
          more ∙ ap (λ j. j ∷ (consecutive (suc k) (high' - x) ++ rest)) (sym same) ∙ head,
          omega (arith, above, same, e),
          omega (arith, short),
        )
  | inr o ↦
      rw (extend, o)
        (
          ap (λ j. consecutive k j ++ (x ∷ l)) {x = high - high} {y = 0} (omega arith),
          omega arith,
          omega arith,
        )
]

extend_first : (low : ℕ) (l : List ℕ) → extend low low (low ∷ l) ≡ extend (suc low) low l
unfolding extend
extend_first low l = ground arith

members-ranges : (fuel : ℕ) (l : List ℕ) → length l ≤ fuel → members (ranges fuel l) ≡ l
unfolding ranges
members-ranges fuel [] m = refl
members-ranges zero (low ∷ l) m = ground (arith, m)
members-ranges (suc fuel) (low ∷ l) m =
    let (all, above, short) = extended (suc low) low l (omega arith) in
    let high = (extend (suc low) low l).0 in
    let rest = (extend (suc low) low l).1 in
    let one_more : consecutive low (suc high - low) ++ rest
        ≡ low ∷ (consecutive (suc low) (high - low) ++ rest) =
      ap (λ j. consecutive low j ++ rest) {x = suc high - low} {y = suc (high - low)}
        (omega (arith, above)) in
    rw (ranges, extend_first low l)
      (ap (λ t. consecutive low (suc high - low) ++ t)
          (members-ranges fuel rest (omega (arith, short, m)))
        ∙ one_more
        ∙ ap (λ t. low ∷ t) all)

-- The loops end with as many turns of the outer one as there are values: the ranges that they find
-- have, in order, just the sorted values, and every value as often as it was given.
pub members-find_ranges :
    (std : Sorting) (values : List ℕ)
    → (members (find_ranges std values) ≡ std.sort values)
      × ((n : ℕ) → count n (members (find_ranges std values)) ≡ count n values)
unfolding find_ranges
members-find_ranges std values =
    let all = members-ranges (length (std.sort values)) (std.sort values) (omega arith) in
    (all, λ n. ap (count n) all ∙ std.same_elements n values)
