-- ===== src/Bitmap/Splitting.antt =====
-- cpp/mrc/src/public/core/bitmap.cpp: `split` cuts a bitmap into even parts.
use mrc.Prelude.{
  ℕ, zero, suc, ◌+◌, ◌-◌, ◌*◌, ◌/◌, ◌%◌, ◌≤◌, ◌<◌, ◌≡◌, refl, some, List, [], ◌∷◌, ◌==◌, length,
  All, if◌then◌else◌, arith, Bool-cases, inl, inr, ltb,
}
use mrc.Bitmap.{Hwloc, split_loop, split}
use mrc.Bitmap.Popping.{one_if, pop_lem, weightless}

module _ {B : Type 0} (h : Hwloc B) where
  -- In how many of the bitmaps the bit is set.
  abbrev pub covers : ℕ → List B → ℕ
  covers j [] = 0
  covers j (b ∷ bs) = one_if (h.isset j b) + covers j bs

  abbrev pub Even : ℕ → List B → Type 0
  Even d = All (λ p. (d ≤ h.weight p) × (h.weight p ≤ suc d))

  -- How many bits the ways from the i-th on take.
  abbrev taken : ℕ → ℕ → ℕ → ℕ → ℕ
  taken d r zero i = 0
  taken d r (suc ways) i = d + (if ltb i r then 1 else 0) + taken d r ways (suc i)

  pub record Parts (d : ℕ) (ways : ℕ) (b : B) (v : List B) : Type 0 where
    pub as_many : length v ≡ ways
    pub each : (j : ℕ) → covers j v ≡ one_if (h.isset j b)
    pub even : Even d v

  split_loop-Parts :
      (d r ways i : ℕ) (b : B)
      → h.weight b ≡ taken d r ways i
      → (v : List B) × (split_loop h d r ways i b ≡ some v) × Parts d ways b v
  unfolding split_loop
  split_loop-Parts d r zero i b w = (
    [],
    refl,
    record { as_many = refl; each = λ j. ground (arith, weightless h j b w); even = tt },
  )
  split_loop-Parts d r (suc ways) i b w =
      let count : ℕ = d + (if ltb i r then 1 else 0) in
      elim (Bool-cases (count == 0)) [
        | inl y ↦
            let (v, e, p) = split_loop-Parts d r ways (suc i) b (ground (arith, w, y)) in
            (
              h.alloc ∷ v,
              rw (split_loop, y, e) refl,
              record {
                as_many = ground (arith, p.as_many);
                each = λ j. ground (arith, p.each j, h.isset-alloc j);
                even = (ground (arith, h.weight_zero h.alloc h.isset-alloc, y), p.even);
              },
            )
        | inr n ↦
            let (piece, c, popped, m) = pop_lem h count b (ground (arith, w)) in
            let (v, e, p) = split_loop-Parts d r ways (suc i) c (ground (arith, w, m.lost)) in
            (
              piece ∷ v,
              rw (split_loop, n, popped, e) refl,
              record {
                as_many = ground (arith, p.as_many);
                each = λ j. ground (arith, p.each j, m.each j, h.isset-alloc j);
                even = (ground (arith, h.weight_zero h.alloc h.isset-alloc, m.gained), p.even);
              },
            )
      ]

  taken-all : (d r ways i : ℕ) → r ≤ i + ways → taken d r ways i ≡ ways * d + (r - i)
  taken-all d r zero i l = ground (arith, l)
  taken-all d r (suc ways) i l = ground (arith, l, taken-all d r ways (suc i))

  -- Splitting into at least one part succeeds: there are as many parts as were asked for, every bit of
  -- the bitmap is in just one of them and no other bit is in any, and the weights of any two parts
  -- differ by at most one.
  pub split_lem :
      (nways : ℕ) (b : B)
      → 0 < nways
      → (v : List B) × (split h nways b ≡ some v) × Parts (h.weight b / nways) nways b v
  unfolding split
  split_lem nways b l =
      let w = h.weight b in
      let total : w ≡ taken (w / nways) (w % nways) nways 0 =
        omega (arith, l, taken-all (w / nways) (w % nways) nways 0) in
      let (v, e, p) = split_loop-Parts (w / nways) (w % nways) nways 0 b total in
      (v, ground (arith, l, e), p)
