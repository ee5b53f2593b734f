-- ===== src/Service/History.antt =====
-- Each virtual function runs at most once in the life of a service.
use mrc.Prelude.{
  ℕ, suc, leb, if◌then◌else◌, ◌≤◌, Bool, true, false, Option, none, some, List, [], ◌∷◌, arith,
}
use mrc.Service.{
  ServiceState, rank, starting, stopping, killing, Exn, Outcome, returned, waits, threw, aborted,
  pending, Virtual, starts, lives, stops, kills, joins, called, Service, start_result, live_result,
  join_result, Hooks, advance_state, ensure_state, service_start, service_await_live, service_stop,
  service_kill, service_await_join, destructor_join, call_in_destructor, Method, start, await_live,
  stop, kill, await_join, destruct, call, run, init,
}

abbrev pub times : Virtual → List Virtual → ℕ
times v [] = 0
times starts (starts ∷ vs) = suc (times starts vs)
times lives (lives ∷ vs) = suc (times lives vs)
times stops (stops ∷ vs) = suc (times stops vs)
times kills (kills ∷ vs) = suc (times kills vs)
times joins (joins ∷ vs) = suc (times joins vs)
times v (w ∷ vs) = times v vs

abbrev flag : Bool → ℕ
flag true = 1
flag false = 0

abbrev reached : ServiceState → ServiceState → ℕ
reached st s = if leb (rank st) (rank s) then 1 else 0

-- A virtual function has run only if the state or the flag that guards it says so, and then once.
pub record Inv (s : Service) : Type 0 where
  pub start_once : times starts s.calls ≤ reached starting s.state
  pub live_once : times lives s.calls ≤ flag s.await_live_called
  pub stop_once : times stops s.calls ≤ reached stopping s.state
  pub kill_once : times kills s.calls ≤ reached killing s.state
  pub join_once : times joins s.calls ≤ flag s.await_join_called

-- What a virtual function may do to its service: whatever keeps the invariant, as a sequence of
-- calls of the methods does.
abbrev pub Keeps : (Service → Option Exn × Service) → Type 0
Keeps f = (s : Service) → Inv s → Inv (f s).1

pub record IsKeeping (h : Hooks) : Type 0 where
  pub on_start : Keeps h.do_service_start
  pub on_live : Keeps h.do_service_await_live
  pub on_stop : Keeps h.do_service_stop
  pub on_kill : Keeps h.do_service_kill
  pub on_join : Keeps h.do_service_await_join

init-Inv : Inv init
unfolding init
init-Inv = omega arith

start_result-Inv : (r : Option Exn × Service) → Inv r.1 → Inv (start_result r).1
unfolding ensure_state advance_state
start_result-Inv (none, t) v = ground arith
start_result-Inv (some e, t) v = ground arith

live_result-Inv : (r : Option Exn × Service) → Inv r.1 → Inv (live_result r).1
live_result-Inv (none, t) v = ground arith
live_result-Inv (some e, t) v = ground arith

join_result-Inv : (r : Option Exn × Service) → Inv r.1 → Inv (join_result r).1
unfolding advance_state
join_result-Inv (none, t) v = ground arith
join_result-Inv (some e, t) v = ground arith

module _ (h : Hooks) (k : IsKeeping h) where
  service_start-Inv : (s : Service) → Inv s → Inv (service_start h s).1
  unfolding service_start
  service_start-Inv s v =
      let t : Service = called starts (record s { state = starting }) in
      ground (arith, k.on_start t, start_result-Inv (h.do_service_start t))

  service_await_live-Inv : (s : Service) → Inv s → Inv (service_await_live h s).1
  unfolding service_await_live
  service_await_live-Inv s v =
      let t : Service =
        called lives (record s { await_live_called = true; live_future = some pending }) in
      ground (arith, k.on_live t, live_result-Inv (h.do_service_await_live t))

  service_stop-Inv : (s : Service) → Inv s → Inv (service_stop h s).1
  unfolding service_stop advance_state
  service_stop-Inv s v = ground (arith, k.on_stop (called stops (record s { state = stopping })))

  service_kill-Inv : (s : Service) → Inv s → Inv (service_kill h s).1
  unfolding service_kill advance_state
  service_kill-Inv s v = ground (arith, k.on_kill (called kills (record s { state = killing })))

  service_await_join-Inv : (s : Service) → Inv s → Inv (service_await_join h s).1
  unfolding service_await_join
  service_await_join-Inv s v =
      let t : Service =
        called joins (record s { await_join_called = true; completed_future = some pending }) in
      ground (arith, k.on_join t, join_result-Inv (h.do_service_await_join t))

  destructor_join-Inv :
      (st : ServiceState) (r : Outcome × Service) → Inv r.1 → Inv (destructor_join h st r).1
  unfolding destructor_join
  destructor_join-Inv st (returned, t) v = ground (arith, service_await_join-Inv t)
  destructor_join-Inv st (waits, t) v = v
  destructor_join-Inv st (aborted, t) v = v
  destructor_join-Inv st (threw e, t) v = v

  call_in_destructor-Inv : (s : Service) → Inv s → Inv (call_in_destructor h s).1
  unfolding call_in_destructor
  call_in_destructor-Inv s v = ground (
    arith,
    service_kill-Inv s,
    destructor_join-Inv s.state (service_kill h s),
    destructor_join-Inv s.state (returned, s),
  )

  pub call-Inv : (m : Method) (s : Service) → Inv s → Inv (call h m s).1
  unfolding call
  call-Inv start s v = service_start-Inv s v
  call-Inv await_live s v = service_await_live-Inv s v
  call-Inv stop s v = service_stop-Inv s v
  call-Inv kill s v = service_kill-Inv s v
  call-Inv await_join s v = service_await_join-Inv s v
  call-Inv destruct s v = call_in_destructor-Inv s v

  run-Inv : (ms : List Method) (s : Service) → Inv s → Inv (run h ms s)
  unfolding run
  run-Inv [] s v = v
  run-Inv (m ∷ ms) s v = run-Inv ms (call h m s).1 (call-Inv m s v)

  -- In any history of calls of a new service no virtual function runs twice, provided that the
  -- virtual functions themselves touch the service only in ways that keep this so.
  pub run-once :
      (ms : List Method)
      → let cs = (run h ms init).calls in
        (times starts cs ≤ 1)
        × (times lives cs ≤ 1)
        × (times stops cs ≤ 1)
        × (times kills cs ≤ 1)
        × (times joins cs ≤ 1)
  run-once ms = let v : Inv (run h ms init) = run-Inv ms init init-Inv in ground arith
