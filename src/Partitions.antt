-- ===== src/Partitions.antt =====
-- Parts of cpp/mrc/src/internal/system/partitions.cpp: how the cores of a host are divided and how its
-- devices are matched. A set of CPUs is of any type; the weight of the intersection of two of them,
-- which Bitmap computes over the hwloc library, is a parameter.
use mrc.Prelude.{
  ℕ, zero, suc, ◌+◌, ◌-◌, ◌*◌, ◌/◌, ◌%◌, ◌≤◌, ◌<◌, ◌≡◌, refl, Bool, true, Option, none, some, List,
  [], ◌∷◌, ◌++◌, min, sym, ap, ◌∙◌, ltb→lt, if◌then◌else◌, ltb, arith, Bool-cases, inl, inr,
}
use mrc.Prelude.Maps.{Map, erase}

-- The number of cores of the part `me` and the first of them.
unfoldable pub div_even : ℕ → ℕ → ℕ → ℕ × ℕ
div_even n np me =
    let nr = n / np in
    let ne = n % np in (nr, if ltb me ne then (nr + 1) * me else (nr + 1) * ne + nr * (me - ne))

-- The cores that are appended to the part's set.
unfoldable pub cores_from : ℕ → ℕ → List ℕ
cores_from sc zero = []
cores_from sc (suc nc) = sc ∷ cores_from (suc sc) nc

unfoldable pub cores_of : ℕ → ℕ → ℕ → List ℕ
unfolding div_even cores_from
cores_of core_count pieces i = let (nc, sc) = div_even core_count pieces i in cores_from sc nc

module _ {C : Type 0} (overlap : C → C → ℕ) where
  -- The loop over the remaining GPUs; the index -1 and the score -1 are `none`.
  unfoldable pub best_of : C → Option ℕ → Option ℕ → Map C → Option ℕ
  best_of cpu_set top_idx top_score [] = top_idx
  best_of cpu_set top_idx top_score ((gpu_id, info) ∷ gpus) =
      let intersection = overlap cpu_set info in
      let better : Bool = elim top_score [ none ↦ true | some score ↦ ltb score intersection ] in
      let chosen = best_of cpu_set (some gpu_id) top_score gpus in
      let passed = best_of cpu_set top_idx top_score gpus in if better then chosen else passed

  -- The match and the GPUs that remain.
  unfoldable pub device_best_match : C → Map C → Option ℕ × Map C
  unfolding best_of erase
  device_best_match cpu_set remaining_gpus =
      let top_idx = best_of cpu_set none none remaining_gpus in
      (top_idx, elim top_idx [ none ↦ remaining_gpus | some i ↦ erase i remaining_gpus ])

times-add : (q a b : ℕ) → q * (a + b) ≡ q * a + q * b
times-add q a b = omega arith

-- The first core of a part, in other words.
start-min :
    (q r me : ℕ)
    → (if ltb me r then (q + 1) * me else (q + 1) * r + q * (me - r)) ≡ q * me + min me r
start-min q r me = elim (Bool-cases (ltb me r)) [
  | inl y ↦ rw y (omega (arith, ltb→lt me r y))
  | inr o ↦
      let above : r ≤ me = ground (arith, o) in
      let whole : r + (me - r) ≡ me = omega (arith, above) in
      rw o (omega (arith, times-add q r (me - r), ap (λ t. q * t) whole, above))
]

-- In a division into at least one part, a part's cores come before those of the next part and are cores
-- of the host. Between a part whose index is below the remainder of the division and the next one a
-- core is left out, so that so many cores belong to no part as the remainder tells.
pub div_even_lem :
    (n np me : ℕ)
    → 0 < np
    → me < np
    → let (nr, sr) = div_even n np me in
      (sr + nr + (if ltb me (n % np) then 1 else 0) ≡ (div_even n np (suc me)).1)
      × ((div_even n np np).1 ≡ n)
      × ((div_even n np 0).1 ≡ 0)
      × (sr + nr ≤ n)
      × (np * nr + n % np ≡ n)
unfolding div_even
div_even_lem n np me p l =
    let q = n / np in
    let r = n % np in
    let here = start-min q r me in
    let division : np * q + r ≡ n = omega (arith, p) in
    let proper : r < np = omega (arith, p) in
    let rest : suc me + (np - suc me) ≡ np = omega (arith, l) in
    let product : q * np ≡ q * suc me + q * (np - suc me) =
      ap (λ t. q * t) (sym rest) ∙ times-add q (suc me) (np - suc me) in
    (
      ground (arith, here, start-min q r (suc me)),
      omega (arith, start-min q r np, division, proper),
      omega (arith, start-min q r 0),
      omega (arith, here, product, division),
      division,
    )

best_of-last :
    {C : Type 0} (overlap : C → C → ℕ) (cpu_set : C) (gpu_id : ℕ) (info : C) (top : Option ℕ)
    (gpus : Map C)
    → best_of overlap cpu_set top none (gpus ++ ((gpu_id, info) ∷ [])) ≡ some gpu_id
unfolding best_of
best_of-last overlap cpu_set gpu_id info top [] = refl
best_of-last overlap cpu_set gpu_id info top ((i, c) ∷ rest) =
    best_of-last overlap cpu_set gpu_id info (some i) rest

-- The match does not look at the overlaps: it is the last of the GPUs that are left, which is then taken
-- out, whatever the sets of CPUs are.
pub device_best_match_lem :
    {C : Type 0} (overlap : C → C → ℕ) (cpu_set : C) (gpu_id : ℕ) (info : C) (gpus : Map C)
    → device_best_match overlap cpu_set (gpus ++ ((gpu_id, info) ∷ []))
      ≡ (some gpu_id, erase gpu_id (gpus ++ ((gpu_id, info) ∷ [])))
unfolding device_best_match
device_best_match_lem overlap cpu_set gpu_id info gpus =
    rw (best_of-last overlap cpu_set gpu_id info none gpus) refl
