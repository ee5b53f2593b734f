-- ===== src/Runner/Outcome.antt =====
-- What the completion callback reports.
use mrc.Prelude.{ℕ, zero, suc, ◌≡◌, refl, Bool, true, List, [], ◌∷◌, length, All, arith}
use mrc.Runner.{
  State, Point, starts, runs, reports, completes, loads, counts, calls, finished, stores, Instance,
  Shared, advance, update_state, turn, turn_of, run, launch,
}
use mrc.Runner.Completion.{queued_up}

abbrev Good : Instance → Type 0
Good i = (i.context_status ≡ true) × (elim i.at [ stores b ↦ b ≡ true | _ ↦ Unit {0} ])

abbrev Spotless : Shared → Type 0
Spotless s = (s.status ≡ true) × All (λ b. b ≡ true) s.completions

turn-Good :
    (p : Point) (st : State) (b : Bool) (s : Shared)
    → let i : Instance = record { state = st; at = p; context_status = b } in
      Good i → Spotless s → Good (turn i s).0 × Spotless (turn i s).1
unfolding turn advance update_state
turn-Good starts st b s g v = ground arith
turn-Good runs st b s g v = ground arith
turn-Good reports st b s g v = ground arith
turn-Good completes st b s g v = ground arith
turn-Good loads st b s g v = ground arith
turn-Good (stores x) st b s g v = ground arith
turn-Good counts st b s g v = ground arith
turn-Good calls st b s g v = ground arith
turn-Good finished st b s g v = ground arith

turn_of-Good :
    (n : ℕ) (is : List Instance) (s : Shared)
    → All Good is
    → Spotless s
    → All Good (turn_of n is s).0 × Spotless (turn_of n is s).1
unfolding turn_of
turn_of-Good n [] s g v = (g, v)
turn_of-Good zero (i ∷ is) s g v =
    let (h, w) = turn-Good i.at i.state i.context_status s g.0 v in ((h, g.1), w)
turn_of-Good (suc n) (i ∷ is) s g v = let (h, w) = turn_of-Good n is s g.1 v in ((g.0, h), w)

run-Good :
    (ns : List ℕ) (is : List Instance) (s : Shared)
    → All Good is
    → Spotless s
    → Spotless (run ns is s).1
unfolding run
run-Good [] is s g v = v
run-Good (n ∷ ns) is s g v =
    let (h, w) = turn_of-Good n is s g v in run-Good ns (turn_of n is s).0 (turn_of n is s).1 h w

launch-Good : (bs : List Bool) → All (λ b. b ≡ true) bs → All Good (launch bs)
unfolding launch
launch-Good [] g = tt
launch-Good (b ∷ bs) g = ((g.0, tt), launch-Good bs g.1)

-- When every context succeeds, the completion callback never reports a failure, in any interleaving.
pub run-succeeds :
    (bs : List Bool) (ns : List ℕ)
    → All (λ b. b ≡ true) bs
    → All (λ b. b ≡ true) (run ns (launch bs) (queued_up (length bs))).1.completions
run-succeeds bs ns g =
    (run-Good ns (launch bs) (queued_up (length bs)) (launch-Good bs g) (refl, tt)).1
