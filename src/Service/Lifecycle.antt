-- ===== src/Service/Lifecycle.antt =====
-- The order of the states and what each method does to them.
use mrc.Prelude.{◌≤◌, ◌<◌, ◌≡◌, ◌≢◌, true, Option, none, some, List, [], ◌∷◌, arith}
use mrc.Service.{
  ServiceState, rank, initialized, starting, running, stopping, killing, completed, Exn,
  already_started, Outcome, returned, threw, aborted, Service, Hooks, advance_state, ensure_state,
  service_start, service_await_live, service_stop, service_kill, service_await_join,
  call_in_destructor, Method, start, await_live, stop, kill, await_join, destruct, call, run,
  starts, lives, stops, kills, joins, called, pending, start_result, live_result, join_result,
  destructor_join, waits,
}

-- A virtual function never moves the state of its service backwards: it reaches the state only
-- through the methods of this class.
abbrev pub Forward : (Service → Option Exn × Service) → Type 0
Forward f = (s : Service) → rank s.state ≤ rank (f s).1.state

pub record IsForward (h : Hooks) : Type 0 where
  pub on_start : Forward h.do_service_start
  pub on_live : Forward h.do_service_await_live
  pub on_stop : Forward h.do_service_stop
  pub on_kill : Forward h.do_service_kill
  pub on_join : Forward h.do_service_await_join

-- Whether a call ends without a failed CHECK, in a state that is not before the one it began in.
abbrev pub Progress : Service → Outcome × Service → Type 0
Progress s (o, s') = (o ≢ aborted) × (rank s.state ≤ rank s'.state)

start_result-Progress :
    (s : Service) (r : Option Exn × Service)
    → rank s.state ≤ rank r.1.state
    → Progress s (start_result r)
unfolding ensure_state advance_state
start_result-Progress s (none, t) h = ground arith
start_result-Progress s (some e, t) h = ground arith

live_result-Progress :
    (s : Service) (r : Option Exn × Service)
    → rank s.state ≤ rank r.1.state
    → Progress s (live_result r)
live_result-Progress s (none, t) h = ground arith
live_result-Progress s (some e, t) h = ground arith

join_result-Progress :
    (s : Service) (r : Option Exn × Service)
    → rank s.state ≤ rank r.1.state
    → Progress s (join_result r)
unfolding advance_state
join_result-Progress s (none, t) h = ground arith
join_result-Progress s (some e, t) h = ground arith

module _ (h : Hooks) (f : IsForward h) where
  service_start-Progress : (s : Service) → Progress s (service_start h s)
  unfolding service_start
  service_start-Progress s = ground (
    arith,
    f.on_start (called starts (record s { state = starting })),
    start_result-Progress s (h.do_service_start (called starts (record s { state = starting }))),
  )

  service_await_live-Progress : (s : Service) → Progress s (service_await_live h s)
  unfolding service_await_live
  service_await_live-Progress s =
      let t : Service =
        called lives (record s { await_live_called = true; live_future = some pending }) in
      ground (arith, f.on_live t, live_result-Progress s (h.do_service_await_live t))

  service_stop-Progress : (s : Service) → Progress s (service_stop h s)
  unfolding service_stop advance_state
  service_stop-Progress s = ground (arith, f.on_stop (called stops (record s { state = stopping })))

  service_kill-Progress : (s : Service) → Progress s (service_kill h s)
  unfolding service_kill advance_state
  service_kill-Progress s = ground (arith, f.on_kill (called kills (record s { state = killing })))

  service_await_join-Progress : (s : Service) → Progress s (service_await_join h s)
  unfolding service_await_join
  service_await_join-Progress s =
      let t : Service =
        called joins (record s { await_join_called = true; completed_future = some pending }) in
      ground (arith, f.on_join t, join_result-Progress s (h.do_service_await_join t))

  destructor_join-Progress :
      (s : Service) (st : ServiceState) (r : Outcome × Service)
      → Progress s r
      → Progress s (destructor_join h st r)
  unfolding destructor_join
  destructor_join-Progress s st (returned, t) p = ground (arith, service_await_join-Progress t)
  destructor_join-Progress s st (waits, t) p = p
  destructor_join-Progress s st (aborted, t) p = p
  destructor_join-Progress s st (threw e, t) p = p

  call_in_destructor-Progress : (s : Service) → Progress s (call_in_destructor h s)
  unfolding call_in_destructor
  call_in_destructor-Progress s = ground (
    arith,
    service_kill-Progress s,
    destructor_join-Progress s s.state (service_kill h s),
    destructor_join-Progress s s.state (returned, s),
  )

  -- Whatever method is called in whatever state, no CHECK of the class fails, and the state never
  -- goes back, provided that the virtual functions do not move it back.
  pub call-Progress : (m : Method) (s : Service) → Progress s (call h m s)
  unfolding call
  call-Progress start s = service_start-Progress s
  call-Progress await_live s = service_await_live-Progress s
  call-Progress stop s = service_stop-Progress s
  call-Progress kill s = service_kill-Progress s
  call-Progress await_join s = service_await_join-Progress s
  call-Progress destruct s = call_in_destructor-Progress s

  -- So a history of calls of any length only advances the state.
  pub run-advances : (ms : List Method) (s : Service) → rank s.state ≤ rank (run h ms s).state
  unfolding run
  run-advances [] s = omega arith
  run-advances (m ∷ ms) s = omega (arith, (call-Progress m s).1, run-advances ms (call h m s).1)

  initialized_only :
      (s : Service) → 0 < rank s.state → (service_start h s) ≡ (threw already_started, s)
  unfolding service_start
  initialized_only s p = ground arith

  start-rank : (s : Service) → 0 < rank (service_start h s).1.state
  unfolding service_start ensure_state
  start-rank s =
      let t : Service = called starts (record s { state = starting }) in
      ground (arith, f.on_start t)

  -- A service starts once: after `service_start`, whether it succeeded, failed or was refused, and
  -- after any further calls, it is refused and changes nothing.
  pub start_once :
      (ms : List Method) (s : Service)
      → let t = run h ms (service_start h s).1 in service_start h t ≡ (threw already_started, t)
  start_once ms s =
      initialized_only _ (omega (arith, start-rank s, run-advances ms (service_start h s).1))

  -- If no virtual function moves the state back: from `Initialized`, a start whose virtual function
  -- throws rethrows the exception and ends in `Completed`; one whose virtual function returns ends
  -- in `Running`, or in the later state that the virtual function itself moved to.
  pub service_start_lem :
      (s : Service)
      → s.state ≡ initialized
      → let (e, t) = h.do_service_start (called starts (record s { state = starting })) in
        let (o, s') = service_start h s in
        ((x : Exn) → e ≡ some x → (o ≡ threw x) × (s'.state ≡ completed))
        × (e ≡ none
            → (o ≡ returned)
              × (rank t.state ≤ 2 → s'.state ≡ running)
              × (2 < rank t.state → s' ≡ t))
  unfolding service_start ensure_state
  service_start_lem s i =
      let r = f.on_start (called starts (record s { state = starting })) in
      (λ x e. ground arith, λ e. ground arith)
