-- ===== src/Runner/Completion.antt =====
-- The completion callback: when it is called, and with what.
use mrc.Prelude.{
  some, ℕ, zero, suc, ◌+◌, ◌<◌, ◌≡◌, refl, Bool, true, false, List, [], ◌∷◌, ◌==◌, if◌then◌else◌,
  length, all, All, arith,
}
use mrc.Runner.{
  enqueue, create, run_, update_runnable, State, rank, Point, starts, runs, reports, completes,
  loads, counts, calls, finished, stores, Instance, Shared, advance, update_state, turn, turn_of,
  run, launch,
}

-- Whether the task has yet to decrement the count, and whether it is about to call the callback.
abbrev pub before_count : Point → ℕ
before_count calls = 0
before_count finished = 0
before_count p = 1

abbrev pub about_to_call : Point → ℕ
about_to_call calls = 1
about_to_call p = 0

abbrev pub is_finished : Point → Bool
is_finished finished = true
is_finished p = false

-- The ranks of the states that an instance can be in at a point.
abbrev pub FitsAt : Point → ℕ → Type 0
FitsAt starts r = r ≡ 1
FitsAt runs r = r ≡ 2
FitsAt reports r = r ≡ 2
FitsAt completes r = r < 4
FitsAt p r = Unit {0}

abbrev pub pending : List Instance → ℕ
pending [] = 0
pending (i ∷ is) = before_count i.at + pending is

abbrev pub calling : List Instance → ℕ
calling [] = 0
calling (i ∷ is) = about_to_call i.at + calling is

-- Once the count is 0, one instance is about to call or has called.
abbrev pub once : ℕ → ℕ
once n = if n == 0 then 1 else 0

-- `k` and `c` stand for the other instances.
record Balance (k c : ℕ) (s : Shared) : Type 0 where
  sound : s.check_failed ≡ false
  counted : k ≡ s.remaining_instances
  called : c + length s.completions ≡ once s.remaining_instances

turn-Balance :
    (p : Point) (st : State) (b : Bool) (s : Shared) (k c : ℕ)
    → FitsAt p (rank st)
    → Balance (before_count p + k) (about_to_call p + c) s
    → let (j, t) = turn (record { state = st; at = p; context_status = b }) s in
      FitsAt j.at (rank j.state) × Balance (before_count j.at + k) (about_to_call j.at + c) t
unfolding turn advance update_state
turn-Balance starts st b s k c f v = ground arith
turn-Balance runs st b s k c f v = ground arith
turn-Balance reports st b s k c f v = ground arith
turn-Balance completes st b s k c f v = ground arith
turn-Balance loads st b s k c f v = ground arith
turn-Balance (stores x) st b s k c f v = ground arith
turn-Balance counts st b s k c f v = ground arith
turn-Balance calls st b s k c f v = ground arith
turn-Balance finished st b s k c f v = ground arith

abbrev pub Fits : List Instance → Type 0
Fits = All (λ i. FitsAt i.at (rank i.state))

shift : (k l c d : ℕ) (s : Shared) → k ≡ l → c ≡ d → Balance k c s → Balance l d s
shift k l c d s p q v =
    let n = v.counted in
    let m = v.called in record { sound = v.sound; counted = omega arith; called = omega arith }

turn_of-Balance :
    (n : ℕ) (is : List Instance) (s : Shared) (k c : ℕ)
    → Fits is
    → Balance (pending is + k) (calling is + c) s
    → let (js, t) = turn_of n is s in Fits js × Balance (pending js + k) (calling js + c) t
unfolding turn_of
turn_of-Balance n [] s k c f v = (f, v)
turn_of-Balance zero (i ∷ is) s k c f v =
    let (g, w) =
      turn-Balance i.at i.state i.context_status s (pending is + k) (calling is + c) f.0
        (shift _ _ _ _ s (omega arith) (omega arith) v) in
    ((g, f.1), shift _ _ _ _ (turn i s).1 (omega arith) (omega arith) w)
turn_of-Balance (suc n) (i ∷ is) s k c f v =
    let (g, w) =
      turn_of-Balance n is s (before_count i.at + k) (about_to_call i.at + c) f.1
        (shift _ _ _ _ s (omega arith) (omega arith) v) in
    ((f.0, g), shift _ _ _ _ (turn_of n is s).1 (omega arith) (omega arith) w)

run-Balance :
    (ns : List ℕ) (is : List Instance) (s : Shared)
    → Fits is
    → Balance (pending is) (calling is) s
    → let (js, t) = run ns is s in Fits js × Balance (pending js) (calling js) t
unfolding run
run-Balance [] is s f v = (f, v)
run-Balance (n ∷ ns) is s f v =
    let (g, w) = turn_of-Balance n is s 0 0 f (shift _ _ _ _ s (omega arith) (omega arith) v) in
    run-Balance ns (turn_of n is s).0 (turn_of n is s).1 g
      (shift _ _ _ _ (turn_of n is s).1 (omega arith) (omega arith) w)

launch-Fits : (bs : List Bool) → Fits (launch bs)
unfolding launch
launch-Fits [] = tt
launch-Fits (b ∷ bs) = (refl, launch-Fits bs)

launch_lem : (bs : List Bool) → (pending (launch bs) ≡ length bs) × (calling (launch bs) ≡ 0)
unfolding launch
launch_lem [] = (refl, refl)
launch_lem (b ∷ bs) = ground (arith, launch_lem bs)

-- What the instances share when `enqueue` has set the count.
abbrev pub queued_up : ℕ → Shared
queued_up n = record {
  status = true;
  remaining_instances = n;
  check_failed = false;
  completions = [];
}

point_done : (p : Point) → is_finished p ≡ (before_count p + about_to_call p == 0)
point_done starts = refl
point_done runs = refl
point_done reports = refl
point_done completes = refl
point_done loads = refl
point_done counts = refl
point_done calls = refl
point_done finished = refl
point_done (stores b) = refl

all_done : (is : List Instance) → all (λ i. is_finished i.at) is ≡ (pending is + calling is == 0)
all_done [] = refl
all_done (i ∷ is) = ground (arith, all_done is, point_done i.at)

-- So `enqueue` leaves a new Runner.
enqueue-create :
    (bs : List Bool)
    → enqueue bs create
      ≡ some (record {
        instances = launch bs;
        shared = queued_up (length bs);
        runnable_state = run_;
        can_run = true;
      })
unfolding enqueue create update_runnable
enqueue-create bs = refl

-- In any interleaving of at least one launched instance, no state is changed out of order, the
-- completion callback has been called once if every instance has finished, and otherwise not at
-- all, and the count is the number of the instances that have yet to decrement it.
pub run-completions :
    (bs : List Bool) (ns : List ℕ)
    → 0 < length bs
    → let (is, s) = run ns (launch bs) (queued_up (length bs)) in
      (s.check_failed ≡ false)
      × (length s.completions ≡ (if all (λ i. is_finished i.at) is then 1 else 0))
      × (s.remaining_instances ≡ pending is)
run-completions bs ns h =
    let (p, c) = launch_lem bs in
    let (_, v) =
      run-Balance ns (launch bs) (queued_up (length bs)) (launch-Fits bs)
        (record { sound = refl; counted = p; called = ground arith }) in
    let m = v.called in
    let n = v.counted in
    let r = run ns (launch bs) (queued_up (length bs)) in
    (v.sound, ground (arith, all_done r.0), omega arith)
