-- ===== src/RecentChannel/Recency.antt =====
-- What the channel keeps of what was written.
use mrc.Prelude.{
  ℕ, zero, suc, ◌-◌, ◌≤◌, ◌<◌, ◌≡◌, refl, sym, subst, ap, false, List, [], ◌∷◌, ◌++◌, append_assoc,
  append-nil, leb, if◌then◌else◌, length, length-append, inl, inr, Bool-cases, tests, arith, ◌∙◌,
}
use mrc.RecentChannel.{RecentChannel, await_write, write_each, pop_front}

abbrev pub drop {ℓ} : {A : Type ℓ} → ℕ → List A → List A
drop zero xs = xs
drop (suc n) [] = []
drop (suc n) (x ∷ xs) = drop n xs

-- The last `n` elements.
abbrev pub last {ℓ} : {A : Type ℓ} → ℕ → List A → List A
last n xs = drop (length xs - n) xs

module _ {A : Type 0} where
  drop-append : (n : ℕ) (xs ys : List A) → n ≤ length xs → drop n (xs ++ ys) ≡ drop n xs ++ ys
  drop-append zero xs ys h = refl
  drop-append (suc n) [] ys h = absurd (omega arith)
  drop-append (suc n) (x ∷ xs) ys h = drop-append n xs ys (omega arith)

  length-drop : (n : ℕ) (xs : List A) → length (drop n xs) ≡ length xs - n
  length-drop zero xs = omega arith
  length-drop (suc n) [] = omega arith
  length-drop (suc n) (x ∷ xs) = omega (arith, length-drop n xs)

  drop-suc : (n : ℕ) (xs : List A) → drop (suc n) xs ≡ pop_front (drop n xs)
  drop-suc zero [] = refl
  drop-suc zero (x ∷ xs) = refl
  drop-suc (suc n) [] = refl
  drop-suc (suc n) (x ∷ xs) = drop-suc n xs

  -- One more element behind a history of which the last `n` were kept.
  kept-write :
      (n : ℕ) (history : List A) (x : A)
      → 0 < n
      → (if leb n (length (last n history)) then pop_front (last n history) else last n history)
          ++ (x ∷ [])
        ≡ last n (history ++ (x ∷ []))
  kept-write n history x h =
      let l : ℕ = length history in
      elim (Bool-cases (leb n l)) [
        | inl full ↦
            let size : length (last n history) ≡ n = omega (tests, length-drop (l - n) history) in
            let next : length (history ++ (x ∷ [])) - n ≡ suc (l - n) =
              omega (tests, length-append history (x ∷ [])) in
            rw (size, next)
              (ground (arith, drop-suc (l - n) history, drop-append (suc (l - n)) history (x ∷ [])))
        | inr room ↦
            let none_gone : l - n ≡ 0 = ground arith in
            let next : length (history ++ (x ∷ [])) - n ≡ 0 =
              ground (arith, length-append history (x ∷ [])) in
            rw (none_gone, next) (ground arith)
      ]

  write_each-kept :
      (xs history : List A) (c : RecentChannel A)
      → c.is_shutdown ≡ false
      → 0 < c.max_size
      → c.deque ≡ last c.max_size history
      → (write_each xs c).deque ≡ last c.max_size (history ++ xs)
  unfolding write_each await_write
  write_each-kept [] history c o p e = rw append-nil e
  write_each-kept (x ∷ xs) history c o p e =
      let n : ℕ = c.max_size in
      let c' : RecentChannel A = record c {
        deque = (if leb n (length c.deque) then pop_front c.deque else c.deque) ++ (x ∷ []);
      } in
      let kept : c'.deque ≡ last n (history ++ (x ∷ [])) = rw e (kept-write n history x p) in
      let shape : (await_write x c).1 ≡ c' = rw o in
      subst (λ (t : RecentChannel A). (write_each xs t).deque ≡ last n (history ++ (x ∷ xs)))
        (sym shape)
        (write_each-kept xs (history ++ (x ∷ [])) c' o p kept
          ∙ ap (last n) (append_assoc history (x ∷ []) xs))

  -- Whatever is written to an open channel of positive size that holds at most `max_size` elements,
  -- it then holds the last `max_size` elements of what it held and what was written, in order.
  pub write_each-last :
      (xs : List A) (c : RecentChannel A)
      → c.is_shutdown ≡ false
      → 0 < c.max_size
      → length c.deque ≤ c.max_size
      → (write_each xs c).deque ≡ last c.max_size (c.deque ++ xs)
  write_each-last xs c o p FitsAt =
      let none_gone : length c.deque - c.max_size ≡ 0 = omega arith in
      write_each-kept xs c.deque c o p (rw none_gone)
