-- ===== src/Bitmap/Popping.antt =====
-- cpp/mrc/src/public/core/bitmap.cpp: what `pop` moves and what `append` adds.
use mrc.Prelude.{
  ℕ, zero, suc, ◌+◌, ◌≤◌, ◌<◌, ◌≡◌, refl, ◌∙◌, Bool, true, false, ◌||◌, Option, none, some, arith,
  Option-cases, Bool-cases, inl, inr, ltb, ltb→lt,
}
use mrc.Bitmap.{after, Hwloc, index, on, off, next, each_from, for_each_bit, append, pop_loop, pop}

abbrev pub one_if : Bool → ℕ
one_if true = 1
one_if false = 0

module _ {B : Type 0} (h : Hwloc B) where
  -- No bit is set below the index.
  abbrev pub From : ℕ → B → Type 0
  From n b = (j : ℕ) → j < n → h.isset j b ≡ false

  pub next-exists :
      (p : Option ℕ) (b : B) → From (after p) b → 0 < h.weight b → (i : ℕ) × (h.next p b ≡ some i)
  next-exists p b f w = elim (Option-cases (h.next p b)) [
    | inr e ↦ e
    | inl n ↦
        let unset : (j : ℕ) → h.isset j b ≡ false = λ j. elim (Bool-cases (ltb j (after p))) [
          | inl y ↦ f j (ltb→lt j (after p) y)
          | inr o ↦ h.next_none p b n j (ground (arith, o))
        ] in
        ground (arith, h.weight_zero b unset, w)
  ]

  pub cleared-From :
      (p : Option ℕ) (b : B) (i : ℕ)
      → From (after p) b
      → h.next p b ≡ some i
      → From (suc i) (h.clr i b)
  cleared-From p b i f e j l =
      let (_, _, between) = h.next_some p b i e in
      ground (arith, h.isset-clr j i b, f j, between j, l)

  -- What is known of the bits that a loop of `pop` has moved and of those that are left.
  pub record Moved (n : ℕ) (rv b rv' b' : B) : Type 0 where
    pub each :
        (j : ℕ)
        → one_if (h.isset j rv') + one_if (h.isset j b')
          ≡ one_if (h.isset j rv) + one_if (h.isset j b)
    pub gained : h.weight rv' ≡ h.weight rv + n
    pub lost : h.weight b' + n ≡ h.weight b

  pop_loop-Moved :
      (n : ℕ) (p : Option ℕ) (rv b : B)
      → From (after p) b
      → n ≤ h.weight b
      → ((j : ℕ) → one_if (h.isset j rv) + one_if (h.isset j b) ≤ 1)
      → let (rv', b') = pop_loop h n p rv b in Moved n rv b rv' b'
  unfolding pop_loop
  pop_loop-Moved zero p rv b f l d = record {
    each = λ j. refl;
    gained = omega arith;
    lost = omega arith;
  }
  pop_loop-Moved (suc n) p rv b f l d =
      let (i, e) = next-exists p b f (omega arith) in
      let (_, is_set, _) = h.next_some p b i e in
      let w = h.weight-clr i b is_set in
      let unset : h.isset i rv ≡ false = ground (arith, d i, is_set) in
      let both : (j : ℕ)
          → one_if (h.isset j (h.set i rv)) + one_if (h.isset j (h.clr i b))
            ≡ one_if (h.isset j rv) + one_if (h.isset j b) =
        λ j. ground (arith, h.isset-set j i rv, h.isset-clr j i b, is_set, unset) in
      let v =
        pop_loop-Moved n (some i) (h.set i rv) (h.clr i b) (cleared-From p b i f e)
          (ground (arith, w, l)) (λ j. ground (arith, both j, d j)) in
      unfold next on off index in
      rw (pop_loop, e, index)
        (record {
          each = λ j. ground (arith, v.each j, both j);
          gained = ground (arith, v.gained, h.weight-set i rv unset);
          lost = ground (arith, v.lost, w);
        })

  -- Popping no more bits than there are succeeds and moves so many of them: every bit is afterwards in
  -- just one of both bitmaps if it was there, and in none if it was not, and the weights add up.
  pub pop_lem :
      (n : ℕ) (b : B)
      → n ≤ h.weight b
      → (rv : B) × (b' : B) × (pop h n b ≡ some (rv, b')) × Moved n h.alloc b rv b'
  unfolding pop
  pop_lem n b l = (
    (pop_loop h n none h.alloc b).0,
    (pop_loop h n none h.alloc b).1,
    ground (arith, l),
    pop_loop-Moved n none h.alloc b (λ j z. ground (arith, z)) l
        (λ j. ground (arith, h.isset-alloc j)),
  )

  pub weightless : (j : ℕ) (b : B) → h.weight b ≡ 0 → h.isset j b ≡ false
  weightless j b w = elim (Bool-cases (h.isset j b)) [
    | inl y ↦ ground (arith, h.weight-clr j b y, w)
    | inr n ↦ n
  ]

  append_step :
      (p : Option ℕ) (k j : ℕ) (b c s : B)
      → ((i : ℕ) → after p ≤ i → h.isset i b ≡ h.isset i c)
      → From (after p) c
      → h.next p b ≡ some k
      → (h.isset k c ≡ true)
        × From (suc k) (h.clr k c)
        × ((h.isset j (h.set k s) || h.isset j (h.clr k c)) ≡ (h.isset j s || h.isset j c))
  append_step p k j b c s same f e =
      let (above, is_set, between) = h.next_some p b k e in
      let here : h.isset k c ≡ true = ground (arith, same k above, is_set) in
      (
        here,
        λ i l. ground (arith, h.isset-clr i k c, f i, same i, between i, l),
        ground (arith, h.isset-set j k s, h.isset-clr j k c, here),
      )

  append_each :
      (n i : ℕ) (p : Option ℕ) (j : ℕ) (b c s : B)
      → ((i : ℕ) → after p ≤ i → h.isset i b ≡ h.isset i c)
      → From (after p) c
      → h.weight c ≡ n
      → h.isset j (each_from h (λ idx bit t. on h bit t) n i p b s) ≡ (h.isset j s || h.isset j c)
  unfolding each_from next on index
  append_each zero i p j b c s same f w = ground (arith, weightless j c w)
  append_each (suc n) i p j b c s same f w = elim (Option-cases (h.next p b)) [
    | inl none_left ↦
        let unset : (m : ℕ) → h.isset m c ≡ false = λ m. elim (Bool-cases (ltb m (after p))) [
          | inl y ↦ f m (ltb→lt m (after p) y)
          | inr o ↦ ground (arith, same m, h.next_none p b none_left m, o)
        ] in
        ground (arith, h.weight_zero c unset, w)
    | inr (k, e) ↦
        let (above, _, _) = h.next_some p b k e in
        let (here, f', both) = append_step p k j b c s same f e in
        rw (each_from, e, index)
          (append_each n (suc i) (some k) j b (h.clr k c) (h.set k s)
              (λ m l. ground (arith, same m, h.isset-clr m k c, above, l)) f'
              (ground (arith, h.weight-clr k c here, w))
            ∙ both)
  ]

  -- After `append` a bit is set if it was set in either of the bitmaps.
  pub append_lem :
      (j : ℕ) (other b : B) → h.isset j (append h other b) ≡ (h.isset j b || h.isset j other)
  unfolding append for_each_bit
  append_lem j other b =
      append_each (h.weight other) 0 none j other other b (λ i l. refl) (λ i l. ground (arith, l))
        refl
