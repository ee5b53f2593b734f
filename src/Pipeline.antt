-- ===== src/Pipeline.antt =====
-- cpp/mrc/src/internal/pipeline/pipeline_instance.cpp and controller.cpp: the segments of a pipeline and
-- the updates of their assignment. A segment is a service; its virtual functions, which depend on its
-- address, are a parameter, as is the test whether the definition knows a segment id. The manifolds,
-- which connect the segments, are left out.
pub mod Updates
pub mod FirstUpdate
use mrc.Prelude.{
  ℕ, Bool, true, false, not, Option, none, some, List, [], ◌∷◌, ltb, if◌then◌else◌, select, map,
}
use mrc.Prelude.Maps.{Map, lookup, contains, assign, erase}
use mrc.Addresses.{segment_address_decode}
use mrc.Service.{
  Outcome, returned, aborted, Service, Hooks, init, service_start, service_await_live, service_stop,
  service_await_join,
}

pub record PipelineInstance : Type 0 where
  pub segments : Map Service
  pub joinable : Bool
  pub partition_count : ℕ

-- The current assignment of segment addresses to partitions.
pub record Controller : Type 0 where
  pub pipeline : PipelineInstance
  pub current_segments : Map ℕ

-- One call after another, until one does not return.
pub and_then : {A : Type 0} → Outcome × A → (A → Outcome × A) → Outcome × A
and_then (returned, a) f = f a
and_then (o, a) f = (o, a)

-- `std::set_difference` of the keys.
pub missing : {A B : Type 0} → Map A → Map B → List ℕ
unfolding contains
missing m n = map (λ e. e.0) (select (λ e. not (contains e.0 n)) m)

-- An iteration of the loop of `update`, by how the segment's calls have ended and what the later
-- iterations come to.
abbrev pub started :
    ℕ → Map Service → Outcome × Map Service → Outcome × Service → Outcome × Map Service
started a m (o, m') (returned, t) = (o, (a, t) ∷ m')
started a m rest (o, t) = (o, (a, t) ∷ m)

-- The end of the controller's `update`.
abbrev pub finish : Map ℕ → Controller → Outcome × PipelineInstance → Outcome × Controller
finish new c (returned, p) = (returned, record { pipeline = p; current_segments = new })
finish new c (o, p) = (o, record c { pipeline = p })

pub mark_joinable : PipelineInstance → PipelineInstance
mark_joinable p = record p { joinable = true }

pub remove_segment : ℕ → PipelineInstance → Outcome × PipelineInstance
unfolding contains erase
remove_segment address p =
    if contains address p.segments
    then (returned, record p { segments = erase address p.segments })
    else (aborted, p)

module _ (defined : ℕ → Bool) (h : ℕ → Hooks) where
  pub create_segment : ℕ → ℕ → PipelineInstance → Outcome × PipelineInstance
  unfolding contains assign segment_address_decode
  create_segment address partition_id p =
      if ltb partition_id p.partition_count
      then (if contains address p.segments
          then (aborted, p)
          else if defined (segment_address_decode address).0
          then (returned, record p { segments = assign address init p.segments })
          else (aborted, p))
      else (aborted, p)

  pub stop_segment : ℕ → PipelineInstance → Outcome × PipelineInstance
  unfolding lookup assign
  stop_segment address p = elim (lookup address p.segments) [
    | none ↦ (aborted, p)
    | some s ↦
        (if defined (segment_address_decode address).0
          then (let (o, t) = service_stop (h address) s in
              (o, record p { segments = assign address t p.segments }))
          else (aborted, p))
  ]

  pub join_segment : ℕ → PipelineInstance → Outcome × PipelineInstance
  unfolding lookup assign
  join_segment address p = elim (lookup address p.segments) [
    | none ↦ (aborted, p)
    | some s ↦
        (let (o, t) = service_await_join (h address) s in
          (o, record p { segments = assign address t p.segments }))
  ]

  -- The loop of `update` over the segments.
  pub start_each : Map Service → Outcome × Map Service
  unfolding and_then
  start_each [] = (returned, [])
  start_each ((a, s) ∷ m) =
      started a m (start_each m) (and_then (service_start (h a) s) (service_await_live (h a)))

  pub update_pipeline : PipelineInstance → Outcome × PipelineInstance
  unfolding start_each mark_joinable
  update_pipeline p =
      let (o, m) = start_each p.segments in
      and_then (o, record p { segments = m }) (λ q. (returned, mark_joinable q))

  create_each : Map ℕ → List ℕ → PipelineInstance → Outcome × PipelineInstance
  unfolding create_segment lookup and_then
  create_each new [] p = (returned, p)
  create_each new (a ∷ as_) p = elim (lookup a new) [
    | none ↦ (aborted, p)
    | some partition ↦ and_then (create_segment a partition p) (create_each new as_)
  ]

  stop_each : List ℕ → PipelineInstance → Outcome × PipelineInstance
  unfolding stop_segment and_then
  stop_each [] p = (returned, p)
  stop_each (a ∷ as_) p = and_then (stop_segment a p) (stop_each as_)

  pub update : Map ℕ → Controller → Outcome × Controller
  unfolding missing create_each stop_each update_pipeline
  update new c =
      let create_segments = missing new c.current_segments in
      let remove_segments = missing c.current_segments new in
      finish new c (
        and_then (and_then (create_each new create_segments c.pipeline) (stop_each remove_segments))
          update_pipeline)
