-- ===== src/Pipeline/Updates.antt =====
-- A segment that has been started stops every later update.
use mrc.Prelude.{
  ℕ, ◌<◌, ◌≡◌, ◌≢◌, ◌⊎◌, Bool, true, false, Option, none, some, List, [], ◌∷◌, ltb, arith,
  Option-cases, inl, inr,
}
use mrc.Prelude.Maps.{Map, lookup, lookup-assign, contains-lookup}
use mrc.Service.{
  Outcome, returned, Service, Hooks, rank, service_start, service_await_live, service_stop, call,
  stop, waits, aborted, threw, init,
}
use mrc.Service.Lifecycle.{IsForward, call-Progress}
use mrc.Pipeline.{
  PipelineInstance, Controller, and_then, missing, create_segment, stop_segment, start_each,
  started, finish, update_pipeline, create_each, stop_each, update,
}

-- Whether some segment with that address has been started.
abbrev begun : Option Service → Bool
begun none = false
begun (some s) = ltb 0 (rank s.state)

abbrev pub has_begun : ℕ → PipelineInstance → Bool
has_begun a p = begun (lookup a p.segments)

module _ (defined : ℕ → Bool) (h : ℕ → Hooks) (f : (a : ℕ) → IsForward (h a)) where
  start-refused :
      (a : ℕ) (s : Service)
      → 0 < rank s.state
      → (and_then (service_start (h a) s) (service_await_live (h a))).0 ≢ returned
  unfolding and_then service_start
  start-refused a s e = ground arith

  begun-not_first :
      (a j : ℕ) (s : Service) (m : Map Service)
      → begun (lookup a ((j, s) ∷ m)) ≡ true
      → (0 < rank s.state) ⊎ (begun (lookup a m) ≡ true)
  unfolding lookup
  begun-not_first a j s m e = ground arith

  started-refused :
      (a : ℕ) (m : Map Service) (r : Outcome × Map Service) (q : Outcome × Service)
      → (q.0 ≢ returned) ⊎ (r.0 ≢ returned)
      → (started a m r q).0 ≢ returned
  started-refused a m r (returned, t) e = ground arith
  started-refused a m r (waits, t) e = ground arith
  started-refused a m r (aborted, t) e = ground arith
  started-refused a m r (threw x, t) e = ground arith

  start_each-refused :
      (a : ℕ) (m : Map Service) → begun (lookup a m) ≡ true → (start_each defined h m).0 ≢ returned
  unfolding start_each
  start_each-refused a [] e = unfold lookup in ground arith
  start_each-refused a ((j, s) ∷ m) e =
      let q = and_then (service_start (h j) s) (service_await_live (h j)) in
      started-refused j m (start_each defined h m) q (elim (begun-not_first a j s m e) [
        | inl g ↦ inl (start-refused j s g)
        | inr g ↦ inr (start_each-refused a m g)
      ])

  create-begun :
      (a b k : ℕ) (p : PipelineInstance)
      → has_begun a p ≡ true
      → has_begun a (create_segment defined h b k p).1 ≡ true
  unfolding create_segment
  create-begun a b k p e =
      ground (arith, lookup-assign b a init p.segments, contains-lookup a p.segments)

  stop-begun :
      (a b : ℕ) (p : PipelineInstance)
      → has_begun a p ≡ true
      → has_begun a (stop_segment defined h b p).1 ≡ true
  unfolding stop_segment call
  stop-begun a b p e = elim (Option-cases (lookup b p.segments)) [
    | inl n ↦ ground (arith, n)
    | inr (s, y) ↦ ground (
      arith,
      lookup-assign b a (service_stop (h b) s).1 p.segments,
      (call-Progress (h b) (f b) stop s).1,
      y,
    )
  ]

  and_then-begun :
      (a : ℕ) (q : Outcome × PipelineInstance) (g : PipelineInstance → Outcome × PipelineInstance)
      → has_begun a q.1 ≡ true
      → ((p : PipelineInstance) → has_begun a p ≡ true → has_begun a (g p).1 ≡ true)
      → has_begun a (and_then q g).1 ≡ true
  unfolding and_then
  and_then-begun a (returned, p) g e k = k p e
  and_then-begun a (waits, p) g e k = e
  and_then-begun a (aborted, p) g e k = e
  and_then-begun a (threw x, p) g e k = e

  create_each-begun :
      (new : Map ℕ) (a : ℕ) (bs : List ℕ) (p : PipelineInstance)
      → has_begun a p ≡ true
      → has_begun a (create_each defined h new bs p).1 ≡ true
  unfolding create_each
  create_each-begun new a [] p e = e
  create_each-begun new a (b ∷ bs) p e = elim (Option-cases (lookup b new)) [
    | inl n ↦ ground (arith, n)
    | inr (k, y) ↦
        rw (y, create_each)
          (and_then-begun a (create_segment defined h b k p) (create_each defined h new bs)
            (create-begun a b k p e) (create_each-begun new a bs))
  ]

  stop_each-begun :
      (a : ℕ) (bs : List ℕ) (p : PipelineInstance)
      → has_begun a p ≡ true
      → has_begun a (stop_each defined h bs p).1 ≡ true
  unfolding stop_each
  stop_each-begun a [] p e = e
  stop_each-begun a (b ∷ bs) p e =
      and_then-begun a (stop_segment defined h b p) (stop_each defined h bs) (stop-begun a b p e)
        (stop_each-begun a bs)

  update_pipeline-refused :
      (a : ℕ) (p : PipelineInstance)
      → has_begun a p ≡ true
      → (update_pipeline defined h p).0 ≢ returned
  unfolding update_pipeline and_then
  update_pipeline-refused a p e = ground (arith, start_each-refused a p.segments e)

  and_then-refused :
      (a : ℕ) (q : Outcome × PipelineInstance) (g : PipelineInstance → Outcome × PipelineInstance)
      → has_begun a q.1 ≡ true
      → ((p : PipelineInstance) → has_begun a p ≡ true → (g p).0 ≢ returned)
      → (and_then q g).0 ≢ returned
  unfolding and_then
  and_then-refused a (returned, p) g e k = k p e
  and_then-refused a (waits, p) g e k = ground arith
  and_then-refused a (aborted, p) g e k = ground arith
  and_then-refused a (threw x, p) g e k = ground arith

  finish-refused :
      (new : Map ℕ) (c : Controller) (q : Outcome × PipelineInstance)
      → q.0 ≢ returned
      → ((finish new c q).0 ≢ returned) × ((finish new c q).1.current_segments ≡ c.current_segments)
  finish-refused new c (returned, p) e = ground arith
  finish-refused new c (waits, p) e = ground arith
  finish-refused new c (aborted, p) e = ground arith
  finish-refused new c (threw x, p) e = ground arith

  -- If no virtual function moves the state of its segment backwards: once a segment of the pipeline has
  -- been started, no update returns, whatever the new assignment is, and the controller keeps its old
  -- assignment. An update starts all segments, and one that has been started cannot be started again.
  pub update-refused :
      (new : Map ℕ) (c : Controller) (a : ℕ)
      → has_begun a c.pipeline ≡ true
      → let (o, c') = update defined h new c in
        (o ≢ returned) × (c'.current_segments ≡ c.current_segments)
  unfolding update
  update-refused new c a e =
      let cs = missing new c.current_segments in
      let rs = missing c.current_segments new in
      finish-refused new c _ (
        and_then-refused a
          (and_then (create_each defined h new cs c.pipeline) (stop_each defined h rs))
          (update_pipeline defined h)
          (and_then-begun a (create_each defined h new cs c.pipeline) (stop_each defined h rs)
            (create_each-begun new a cs c.pipeline e) (stop_each-begun a rs))
          (update_pipeline-refused a))
