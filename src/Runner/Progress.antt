-- ===== src/Runner/Progress.antt =====
-- Every instance finishes, and then the callback has been called.
use mrc.Prelude.{
  ℕ, zero, suc, ◌-◌, ◌≤◌, ◌<◌, ◌≡◌, refl, Bool, true, List, [], ◌∷◌, ◌==◌, if◌then◌else◌, length,
  all, arith, ltb, Bool-cases, inl, inr,
}
use mrc.Runner.{
  State, Point, starts, runs, reports, completes, loads, counts, calls, finished, stores, Instance,
  Shared, advance, update_state, turn, turn_of, run, launch,
}
use mrc.Runner.Completion.{is_finished, queued_up, run-completions}

-- The turns that a task still takes, at most.
abbrev left : Point → ℕ
left starts = 8
left runs = 7
left reports = 6
left completes = 5
left loads = 4
left (stores b) = 3
left counts = 2
left calls = 1
left finished = 0

abbrev left_at : ℕ → List Instance → ℕ
left_at n [] = 0
left_at zero (i ∷ is) = left i.at
left_at (suc n) (i ∷ is) = left_at n is

abbrev pub turns : ℕ → List ℕ → ℕ
turns k [] = 0
turns k (n ∷ ns) = if n == k then suc (turns k ns) else turns k ns

turn-left :
    (p : Point) (st : State) (b : Bool) (s : Shared)
    → left (turn (record { state = st; at = p; context_status = b }) s).0.at ≤ left p - 1
unfolding turn advance update_state
turn-left starts st b s = ground arith
turn-left runs st b s = ground arith
turn-left reports st b s = ground arith
turn-left completes st b s = ground arith
turn-left loads st b s = ground arith
turn-left (stores x) st b s = ground arith
turn-left counts st b s = ground arith
turn-left calls st b s = ground arith
turn-left finished st b s = ground arith

turn_of-left :
    (n k : ℕ) (is : List Instance) (s : Shared)
    → left_at k (turn_of n is s).0 ≤ left_at k is - (if n == k then 1 else 0)
unfolding turn_of
turn_of-left n k [] s = omega arith
turn_of-left zero zero (i ∷ is) s = turn-left i.at i.state i.context_status s
turn_of-left zero (suc k) (i ∷ is) s = ground arith
turn_of-left (suc n) zero (i ∷ is) s = ground arith
turn_of-left (suc n) (suc k) (i ∷ is) s = ground (arith, turn_of-left n k is s)

run-left :
    (k : ℕ) (ns : List ℕ) (is : List Instance) (s : Shared)
    → left_at k (run ns is s).0 ≤ left_at k is - turns k ns
unfolding run
run-left k [] is s = omega arith
run-left k (n ∷ ns) is s =
    let u = turn_of n is s in ground (arith, run-left k ns u.0 u.1, turn_of-left n k is s)

launch-left :
    (k : ℕ) (bs : List Bool)
    → (left_at k (launch bs) ≤ 8) × (length bs ≤ k → left_at k (launch bs) ≡ 0)
unfolding launch
launch-left k [] = (omega arith, λ h. refl)
launch-left zero (b ∷ bs) = (omega arith, λ h. omega arith)
launch-left (suc k) (b ∷ bs) = ground (arith, launch-left k bs)

point_finished : (p : Point) → left p ≡ 0 → is_finished p ≡ true
point_finished finished h = refl
point_finished starts h = ground (arith, h)
point_finished runs h = ground (arith, h)
point_finished reports h = ground (arith, h)
point_finished completes h = ground (arith, h)
point_finished loads h = ground (arith, h)
point_finished (stores b) h = ground (arith, h)
point_finished counts h = ground (arith, h)
point_finished calls h = ground (arith, h)

all_finished :
    (is : List Instance) → ((k : ℕ) → left_at k is ≡ 0) → all (λ i. is_finished i.at) is ≡ true
all_finished [] h = refl
all_finished (i ∷ is) h =
    ground (arith, point_finished i.at (h 0), all_finished is (λ k. h (suc k)))

-- Whatever the interleaving of at least one launched instance, once each of them has had eight turns,
-- all of them have finished and the completion callback has been called once.
pub run-finishes :
    (bs : List Bool) (ns : List ℕ)
    → 0 < length bs
    → ((k : ℕ) → k < length bs → 8 ≤ turns k ns)
    → let (is, s) = run ns (launch bs) (queued_up (length bs)) in
      (all (λ i. is_finished i.at) is ≡ true) × (length s.completions ≡ 1)
run-finishes bs ns h e =
    let r = run ns (launch bs) (queued_up (length bs)) in
    let f : all (λ i. is_finished i.at) r.0 ≡ true = all_finished r.0 (λ k.
      elim (Bool-cases (ltb k (length bs))) [
        | inl y ↦ omega (
          arith,
          run-left k ns (launch bs) (queued_up (length bs)),
          launch-left k bs,
          e k (ground arith),
        )
        | inr n ↦
            ground (arith, run-left k ns (launch bs) (queued_up (length bs)), launch-left k bs)
      ]) in
    (f, ground (arith, run-completions bs ns h, f))
