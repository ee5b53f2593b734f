-- ===== src/Runner/LostFailure.antt =====
-- An interleaving in which the failures of the other instances are lost.
use mrc.Prelude.{
  ℕ, suc, ◌-◌, ◌<◌, ◌≡◌, refl, sym, ap, subst, ◌∙◌, Bool, true, false, List, [], ◌∷◌, ◌++◌, length,
  map, arith,
}
use mrc.Runner.{
  completed, stores, finished, Instance, Shared, advance, update_state, turn, turn_of, run, launch,
}
use mrc.Runner.Completion.{queued_up}

-- Turns of each instance in order, up to the decrement of the count.
abbrev others : List Bool → List ℕ
others [] = []
others (b ∷ bs) = 0 ∷ 0 ∷ 0 ∷ 0 ∷ 0 ∷ 0 ∷ 0 ∷ map suc (others bs)

-- The first instance computes the status that it stores before any other instance runs.
abbrev pub overwriting : List Bool → List ℕ
overwriting bs = 0 ∷ 0 ∷ 0 ∷ 0 ∷ 0 ∷ (map suc (others bs) ++ (0 ∷ 0 ∷ 0 ∷ []))

run-map-suc :
    (ns : List ℕ) (i : Instance) (is : List Instance) (s : Shared)
    → run (map suc ns) (i ∷ is) s ≡ (i ∷ (run ns is s).0, (run ns is s).1)
unfolding run turn_of
run-map-suc [] i is s = refl
run-map-suc (n ∷ ns) i is s = run-map-suc ns i (turn_of n is s).0 (turn_of n is s).1

run-append :
    (ns ms : List ℕ) (is : List Instance) (s : Shared)
    → run (ns ++ ms) is s ≡ run ms (run ns is s).0 (run ns is s).1
unfolding run
run-append [] ms is s = refl
run-append (n ∷ ns) ms is s = run-append ns ms (turn_of n is s).0 (turn_of n is s).1

-- What the others leave.
record Left (n : ℕ) (s t : Shared) : Type 0 where
  fewer : t.remaining_instances ≡ s.remaining_instances - n
  same_check : t.check_failed ≡ s.check_failed
  same_completions : t.completions ≡ s.completions

seven_turns :
    (b : Bool) (is : List Instance) (s : Shared)
    → 1 < s.remaining_instances
    → let (js, t) = run (0 ∷ 0 ∷ 0 ∷ 0 ∷ 0 ∷ 0 ∷ 0 ∷ []) (launch (b ∷ []) ++ is) s in
      (js ≡ record { state = completed; at = finished; context_status = b } ∷ is) × Left 1 s t
unfolding run turn_of turn advance update_state launch
seven_turns true is s h = ground arith
seven_turns false is s h = ground arith

abbrev seven : List ℕ
seven = 0 ∷ 0 ∷ 0 ∷ 0 ∷ 0 ∷ 0 ∷ 0 ∷ []

first_done :
    (b : Bool) (bs : List Bool) (s : Shared)
    → 1 < s.remaining_instances
    → (run (others (b ∷ bs)) (launch (b ∷ bs)) s).1
      ≡ (run (others bs) (launch bs) (run seven (launch (b ∷ []) ++ launch bs) s).1).1
unfolding launch
first_done b bs s h =
    let i : Instance = record { state = completed; at = finished; context_status = b } in
    let t : Shared = (run seven (launch (b ∷ []) ++ launch bs) s).1 in
    ap (λ (r : List Instance × Shared). r.1)
      (run-append seven (map suc (others bs)) (launch (b ∷ []) ++ launch bs) s
        ∙ ap (λ (is : List Instance). run (map suc (others bs)) is t)
            (seven_turns b (launch bs) s h).0
        ∙ run-map-suc (others bs) i (launch bs) t)

two_parts : (n : ℕ) (s t u : Shared) → Left 1 s t → Left n t u → Left (suc n) s u
two_parts n s t u p q =
    let a = p.fewer in
    let b = q.fewer in
    record {
      fewer = omega arith;
      same_check = q.same_check ∙ p.same_check;
      same_completions = q.same_completions ∙ p.same_completions;
    }

others_lem :
    (bs : List Bool) (s : Shared)
    → length bs < s.remaining_instances
    → Left (length bs) s (run (others bs) (launch bs) s).1
others_lem [] s h =
    unfold run in record { fewer = omega arith; same_check = refl; same_completions = refl }
others_lem (b ∷ bs) s h =
    let t : Shared = (run seven (launch (b ∷ []) ++ launch bs) s).1 in
    let l : Left 1 s t = (seven_turns b (launch bs) s (omega arith)).1 in
    let f = l.fewer in
    subst (Left (suc (length bs)) s) (sym (first_done b bs s (omega arith))) (
      two_parts (length bs) s t (run (others bs) (launch bs) t).1 l (others_lem bs t (omega arith)))

-- The first instance, about to store the success that it has computed.
abbrev storing : Instance
storing = record { state = completed; at = stores true; context_status = true }

begins :
    (ns : List ℕ) (is : List Instance) (n : ℕ)
    → run (0 ∷ 0 ∷ 0 ∷ 0 ∷ 0 ∷ ns) (launch (true ∷ []) ++ is) (queued_up n)
      ≡ run ns (storing ∷ is) (queued_up n)
unfolding run turn_of turn advance update_state launch
begins ns is n = refl

ends :
    (is : List Instance) (s : Shared)
    → s.remaining_instances ≡ 1
    → s.completions ≡ []
    → (run (0 ∷ 0 ∷ 0 ∷ []) (storing ∷ is) s).1.completions ≡ true ∷ []
unfolding run turn_of turn
ends is s h e = ground arith

-- Whatever the other contexts come to, there is an interleaving in which an instance that succeeds stores
-- its status over theirs, and the completion callback is called once and told of a success.
pub overwriting_succeeds :
    (bs : List Bool)
    → (run (overwriting bs) (launch (true ∷ bs)) (queued_up (suc (length bs)))).1.completions
      ≡ true ∷ []
unfolding launch
overwriting_succeeds bs =
    let q : Shared = queued_up (suc (length bs)) in
    let ns = map suc (others bs) in
    let l = others_lem bs q (omega arith) in
    let f = l.fewer in
    let t = run (others bs) (launch bs) q in
    let path : run (overwriting bs) (launch (true ∷ bs)) q
        ≡ run (0 ∷ 0 ∷ 0 ∷ []) (storing ∷ t.0) t.1 =
      begins (ns ++ (0 ∷ 0 ∷ 0 ∷ [])) (launch bs) (suc (length bs))
      ∙ run-append ns (0 ∷ 0 ∷ 0 ∷ []) (storing ∷ launch bs) q
      ∙ ap (λ (r : List Instance × Shared). run (0 ∷ 0 ∷ 0 ∷ []) r.0 r.1)
          (run-map-suc (others bs) storing (launch bs) q) in
    ap (λ (r : List Instance × Shared). r.1.completions) path
    ∙ ends t.0 t.1 (omega arith) l.same_completions
