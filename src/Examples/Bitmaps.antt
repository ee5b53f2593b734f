-- ===== src/Examples/Bitmaps.antt =====
-- Bitmaps that are lists of their bits, and small ones among them.
use mrc.Prelude.{
  ℕ, zero, suc, ◌+◌, ◌/◌, ◌≤◌, ◌<◌, ◌≡◌, refl, Bool, true, false, Option, none, some, List, [], ◌∷◌,
  ◌==◌, if◌then◌else◌, arith,
}
use mrc.Bitmap.{after, Hwloc, RoundRobin, next_round, split}
use mrc.Bitmap.Splitting.{Parts, split_lem}
use mrc.Bitmap.Rounds.{below, Counted, Successor, next_round_lem}

unfoldable pub isset : ℕ → List Bool → Bool
isset j [] = false
isset zero (x ∷ b) = x
isset (suc j) (x ∷ b) = isset j b

unfoldable pub set : ℕ → List Bool → List Bool
set zero [] = true ∷ []
set zero (x ∷ b) = true ∷ b
set (suc i) [] = false ∷ set i []
set (suc i) (x ∷ b) = x ∷ set i b

unfoldable pub clr : ℕ → List Bool → List Bool
clr i [] = []
clr zero (x ∷ b) = false ∷ b
clr (suc i) (x ∷ b) = x ∷ clr i b

unfoldable shift : Option ℕ → Option ℕ
shift none = none
shift (some i) = some (suc i)

unfoldable pub next_at : ℕ → List Bool → Option ℕ
unfolding shift
next_at n [] = none
next_at zero (x ∷ b) = let later = shift (next_at 0 b) in if x then some 0 else later
next_at (suc n) (x ∷ b) = shift (next_at n b)

unfoldable pub weight : List Bool → ℕ
weight [] = 0
weight (x ∷ b) = (if x then 1 else 0) + weight b

pub isset-set_lem :
    (j i : ℕ) (b : List Bool) → isset j (set i b) ≡ (if i == j then true else isset j b)
unfolding isset set
isset-set_lem zero zero [] = ground arith
isset-set_lem (suc j) zero [] = ground arith
isset-set_lem zero zero (x ∷ b) = ground arith
isset-set_lem (suc j) zero (x ∷ b) = ground arith
isset-set_lem zero (suc i) [] = ground arith
isset-set_lem (suc j) (suc i) [] = ground (arith, isset-set_lem j i [])
isset-set_lem zero (suc i) (x ∷ b) = ground arith
isset-set_lem (suc j) (suc i) (x ∷ b) = ground (arith, isset-set_lem j i b)

pub isset-clr_lem :
    (j i : ℕ) (b : List Bool) → isset j (clr i b) ≡ (if i == j then false else isset j b)
unfolding isset clr
isset-clr_lem j i [] = ground arith
isset-clr_lem zero zero (x ∷ b) = ground arith
isset-clr_lem (suc j) zero (x ∷ b) = ground arith
isset-clr_lem zero (suc i) (x ∷ b) = ground arith
isset-clr_lem (suc j) (suc i) (x ∷ b) = ground (arith, isset-clr_lem j i b)

pub weight-clr_lem : (i : ℕ) (b : List Bool) → isset i b ≡ true → suc (weight (clr i b)) ≡ weight b
unfolding isset clr weight
weight-clr_lem i [] e = cc
weight-clr_lem zero (x ∷ b) e = ground (arith, e)
weight-clr_lem (suc i) (x ∷ b) e = ground (arith, weight-clr_lem i b e)

pub weight-set_lem : (i : ℕ) (b : List Bool) → isset i b ≡ false → weight (set i b) ≡ suc (weight b)
unfolding isset set weight
weight-set_lem zero [] e = refl
weight-set_lem zero (x ∷ b) e = ground (arith, e)
weight-set_lem (suc i) [] e = ground (arith, weight-set_lem i [] (unfold isset in refl))
weight-set_lem (suc i) (x ∷ b) e = ground (arith, weight-set_lem i b e)

pub weight_zero_lem : (b : List Bool) → ((j : ℕ) → isset j b ≡ false) → weight b ≡ 0
unfolding isset weight
weight_zero_lem [] u = refl
weight_zero_lem (x ∷ b) u = ground (arith, u 0, weight_zero_lem b (λ j. u (suc j)))

shift_some_lem : (o : Option ℕ) (i : ℕ) → shift o ≡ some (suc i) → o ≡ some i
unfolding shift
shift_some_lem none i e = cc
shift_some_lem (some k) i e = ground (arith, e)

shift_zero_lem : {G : Type 0} (o : Option ℕ) → shift o ≡ some 0 → G
unfolding shift
shift_zero_lem none e = cc
shift_zero_lem (some k) e = cc

shift_none_lem : (o : Option ℕ) → shift o ≡ none → o ≡ none
unfolding shift
shift_none_lem none e = refl
shift_none_lem (some k) e = cc

-- What the documentation says of a bit that is found.
abbrev Found : ℕ → List Bool → ℕ → Type 0
Found n b i = (n ≤ i) × (isset i b ≡ true) × ((j : ℕ) → n ≤ j → j < i → isset j b ≡ false)

Found-later : (x : Bool) (n i : ℕ) (b : List Bool) → Found n b i → Found (suc n) (x ∷ b) (suc i)
unfolding isset
Found-later x n i b (l, e, u) = (omega (arith, l), e, later)
  where
    later : (j : ℕ) → suc n ≤ j → j < suc i → isset j (x ∷ b) ≡ false
    later zero m m' = ground (arith, m)
    later (suc j) m m' = u j (omega arith) (omega arith)

Found-first : (i : ℕ) (b : List Bool) → Found 0 b i → Found 0 (false ∷ b) (suc i)
unfolding isset
Found-first i b (l, e, u) = (omega arith, e, later)
  where
    later : (j : ℕ) → 0 ≤ j → j < suc i → isset j (false ∷ b) ≡ false
    later zero m m' = refl
    later (suc j) m m' = u j (omega arith) (omega arith)

pub next_some_lem : (n : ℕ) (b : List Bool) (i : ℕ) → next_at n b ≡ some i → Found n b i
unfolding next_at
next_some_lem n [] i e = cc
next_some_lem zero (true ∷ b) zero e =
    unfold isset in (omega arith, refl, λ j l m. ground (arith, m))
next_some_lem zero (true ∷ b) (suc i) e = cc
next_some_lem zero (false ∷ b) zero e = shift_zero_lem (next_at 0 b) e
next_some_lem zero (false ∷ b) (suc i) e =
    Found-first i b (next_some_lem zero b i (shift_some_lem (next_at 0 b) i e))
next_some_lem (suc n) (x ∷ b) zero e = shift_zero_lem (next_at n b) e
next_some_lem (suc n) (x ∷ b) (suc i) e =
    Found-later x n i b (next_some_lem n b i (shift_some_lem (next_at n b) i e))

pub next_none_lem :
    (n : ℕ) (b : List Bool) → next_at n b ≡ none → (j : ℕ) → n ≤ j → isset j b ≡ false
unfolding next_at isset
next_none_lem n [] e j l = refl
next_none_lem zero (true ∷ b) e j l = cc
next_none_lem zero (false ∷ b) e zero l = refl
next_none_lem zero (false ∷ b) e (suc j) l =
    next_none_lem zero b (shift_none_lem (next_at 0 b) e) j (omega arith)
next_none_lem (suc n) (x ∷ b) e zero l = ground (arith, l)
next_none_lem (suc n) (x ∷ b) e (suc j) l =
    next_none_lem n b (shift_none_lem (next_at n b) e) j (omega arith)

pub isset-empty : (j : ℕ) → isset j [] ≡ false
unfolding isset
isset-empty j = refl

abbrev pub listed : Hwloc (List Bool)
listed = record {
  alloc = [];
  set = set;
  clr = clr;
  isset = isset;
  next = λ p b. next_at (after p) b;
  weight = weight;
  isset-alloc = isset-empty;
  isset-set = isset-set_lem;
  isset-clr = isset-clr_lem;
  next_some = λ p b. next_some_lem (after p) b;
  next_none = λ p b. next_none_lem (after p) b;
  weight-clr = weight-clr_lem;
  weight-set = weight-set_lem;
  weight_zero = weight_zero_lem;
}

-- The bits 0, 2 and 3.
abbrev bits : List Bool
bits = true ∷ false ∷ true ∷ true ∷ []

abbrev rounds : RoundRobin (List Bool)
rounds = record { bits = bits; prev = some 3; index = some 2 }

rounds-Counted : Counted listed rounds
rounds-Counted = record { counted = unfold isset in refl }

split_lem_example :
    (v : List (List Bool)) × (split listed 2 bits ≡ some v)
    × Parts listed (listed.weight bits / 2) 2 bits v
split_lem_example = split_lem listed 2 bits (omega arith)

next_round_lem_example :
    (i : ℕ) × (r' : RoundRobin (List Bool)) × (next_round listed 2 rounds
      ≡ some ((below listed i rounds.bits, i), r'))
    × (listed.isset i rounds.bits ≡ true)
    × Successor listed rounds i
    × (r'.bits ≡ rounds.bits)
    × (r'.prev ≡ some i)
    × Counted listed r'
next_round_lem_example = next_round_lem listed rounds (unfold weight in omega arith) rounds-Counted
