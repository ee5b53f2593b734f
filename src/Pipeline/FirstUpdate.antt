-- ===== src/Pipeline/FirstUpdate.antt =====
-- The first update of a pipeline creates and starts every segment of the assignment.
use mrc.Prelude.{
  ℕ, ◌<◌, ◌≡◌, refl, ap, Bool, true, false, Option, none, some, [], ◌∷◌, if◌then◌else◌, All, arith,
  map,
}
use mrc.Prelude.Maps.{
  Map, lookup, contains, assign, contains-lookup, contains-assign, IsSorted, Above, lookup-Above,
}
use mrc.Addresses.{segment_address_decode}
use mrc.Service.{
  Outcome, returned, waits, aborted, threw, Service, Hooks, init, running, service_start,
  service_await_live, ensure_state, advance_state,
}
use mrc.Pipeline.{
  PipelineInstance, and_then, missing, create_segment, start_each, started, update_pipeline,
  mark_joinable, create_each, stop_each, update,
}

-- A start and a wait that return and leave the service as it is.
pub record IsQuiet (h : Hooks) : Type 0 where
  pub on_start : (s : Service) → h.do_service_start s ≡ (none, s)
  pub on_live : (s : Service) → h.do_service_await_live s ≡ (none, s)

-- An entry that `create_segment` accepts.
abbrev pub Valid : (ℕ → Bool) → ℕ → ℕ × ℕ → Type 0
Valid defined partitions (a, k) = (k < partitions) × (defined (segment_address_decode a).0 ≡ true)

missing_all : (m : Map ℕ) → missing {A = ℕ} {B = ℕ} m [] ≡ map (λ e. e.0) m
unfolding missing contains
missing_all [] = refl
missing_all ((a, k) ∷ m) = ap (λ l. a ∷ l) (missing_all m)

-- Each entry of a sorted map is what its key finds.
Found : Map ℕ → Map ℕ → Type 0
Found n = All (λ (a, k). lookup a n ≡ some k)

Found-cons : (j k : ℕ) (n m : Map ℕ) → Above j m → Found n m → Found ((j, k) ∷ n) m
unfolding lookup Found
Found-cons j k n [] b f = tt
Found-cons j k n ((a, v) ∷ m) b f = (ground (arith, f.0, b.0), Found-cons j k n m b.1 f.1)

Found-all : (m : Map ℕ) → IsSorted m → Found m m
unfolding lookup Found
Found-all [] s = tt
Found-all ((j, k) ∷ m) s = (ground arith, Found-cons j k m m s.0 (Found-all m s.1))

abbrev AllInit : Map Service → Type 0
AllInit = All (λ (a, s). s ≡ init)

AllInit-assign : (a : ℕ) (m : Map Service) → AllInit m → AllInit (assign a init m)
unfolding assign
AllInit-assign a [] v = (refl, tt)
AllInit-assign a ((j, s) ∷ m) v = ground (arith, AllInit-assign a m v.1)

abbrev is_up : Option Service → Bool
is_up none = false
is_up (some s) = elim s.state [ running ↦ true | _ ↦ false ]

abbrev pub runs_at : ℕ → Map Service → Bool
runs_at a m = is_up (lookup a m)

module _ (defined : ℕ → Bool) (h : ℕ → Hooks) (q : (a : ℕ) → IsQuiet (h a)) where
  start_one :
      (a : ℕ)
      → let (o, t) = and_then (service_start (h a) init) (service_await_live (h a)) in
        (o ≡ returned) × (t.state ≡ running)
  unfolding and_then service_start service_await_live init ensure_state advance_state
  start_one a = rw ((q a).on_start _, (q a).on_live _) (refl, refl)

  started-returned :
      (a : ℕ) (m : Map Service) (r : Outcome × Map Service) (u : Outcome × Service)
      → u.0 ≡ returned
      → started a m r u ≡ (r.0, (a, u.1) ∷ r.1)
  started-returned a m r (returned, t) e = refl
  started-returned a m r (waits, t) e = cc
  started-returned a m r (aborted, t) e = cc
  started-returned a m r (threw x, t) e = cc

  start_all :
      (m : Map Service)
      → AllInit m
      → let (o, m') = start_each defined h m in
        (o ≡ returned) × ((j : ℕ) → runs_at j m' ≡ contains j m)
  unfolding start_each lookup contains
  start_all [] v = (refl, λ j. refl)
  start_all ((a, s) ∷ m) v =
      let u = and_then (service_start (h a) init) (service_await_live (h a)) in
      let (e, r) = start_one a in
      let (f, g) = start_all m v.1 in
      rw (v.0, started-returned a m (start_each defined h m) u e) (f, λ j. ground (arith, g j, r))

  create_missing :
      (new m : Map ℕ) (p : PipelineInstance)
      → Found new m
      → IsSorted m
      → All (Valid defined p.partition_count) m
      → ((j : ℕ) → contains j m ≡ true → contains j p.segments ≡ false)
      → AllInit p.segments
      → (p' : PipelineInstance) × (create_each defined h new (map (λ e. e.0) m) p ≡ (returned, p'))
        × AllInit p'.segments
        × ((j : ℕ)
            → contains j p'.segments ≡ (if contains j m then true else contains j p.segments))
  unfolding create_each contains Found
  create_missing new [] p f s v w i = (p, refl, i, λ j. refl)
  create_missing new ((a, k) ∷ m) p f s v w i =
      let p1 : PipelineInstance = record p { segments = assign a init p.segments } in
      let fresh : contains a p.segments ≡ false = w a (ground arith) in
      let made : create_segment defined h a k p ≡ (returned, p1) =
        unfold create_segment in ground (arith, fresh, v.0) in
      let apart : contains a m ≡ false =
        ground (arith, contains-lookup a m, lookup-Above a a m s.0) in
      let (p', e, i', c) =
        create_missing new m p1 f.1 s.1 v.1
          (λ j d. ground (arith, contains-assign a j init p.segments, w j, apart, d))
          (AllInit-assign a p.segments i) in
      (
        p',
        rw (f.0, made, create_each, and_then) e,
        i',
        λ j. ground (arith, c j, contains-assign a j init p.segments),
      )

  -- If every virtual start and wait returns and leaves its segment as it is: the first update of a
  -- pipeline without segments returns, for any assignment, sorted as a map is, of segments that the
  -- definition knows to partitions that exist. The assignment becomes the current one, exactly its
  -- segments run, and the pipeline is joinable.
  pub first_update :
      (new : Map ℕ) (partitions : ℕ) (b : Bool)
      → IsSorted new
      → All (Valid defined partitions) new
      → let p : PipelineInstance = record {
        segments = [];
        joinable = b;
        partition_count = partitions;
      } in
        let (o, c) = update defined h new (record { pipeline = p; current_segments = [] }) in
        (o ≡ returned)
        × (c.current_segments ≡ new)
        × (c.pipeline.joinable ≡ true)
        × ((a : ℕ) → runs_at a c.pipeline.segments ≡ contains a new)
  unfolding update missing update_pipeline and_then stop_each mark_joinable
  first_update new partitions b s v =
      let p : PipelineInstance = record {
        segments = [];
        joinable = b;
        partition_count = partitions;
      } in
      let (p', e, i, c) =
        create_missing new new p (Found-all new s) s v (λ j d. unfold contains in refl) tt in
      let (f, g) = start_all p'.segments i in
      rw (missing_all new, e, f) (refl, refl, refl, λ a. ground (arith, g a, c a))
