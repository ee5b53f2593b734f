-- ===== src/Service/Destruction.antt =====
-- Joining a service, once and again, and the clean-up before its destruction.
use mrc.Prelude.{◌<◌, ◌≡◌, true, false, Option, none, some, arith}
use mrc.Service.{
  rank, killing, completed, Exn, Outcome, returned, threw, pending, kills, joins, called, Service,
  join_result, Hooks, advance_state, service_await_join, call_in_destructor, destructible,
  other_exn, broken_promise,
}

abbrev pub joining : Service → Service
joining s = called joins (record s { await_join_called = true; completed_future = some pending })

-- What the first caller of `service_await_join` gets, by what the virtual function throws.
abbrev pub first_join : Option Exn → Outcome
first_join none = returned
first_join (some e) = threw e

-- What every later caller gets: an exception that is no std::exception has been lost.
abbrev pub later_join : Option Exn → Outcome
later_join none = returned
later_join (some (other_exn n)) = threw broken_promise
later_join (some e) = threw e

join_result_lem :
    (r : Option Exn × Service)
    → let (o, s) = join_result r in
      (o ≡ first_join r.0)
      × (s.state ≡ completed)
      × (s.await_join_called ≡ r.1.await_join_called)
      × (s.calls ≡ r.1.calls)
unfolding advance_state
join_result_lem (none, t) = ground arith
join_result_lem (some e, t) = ground arith

join_again_lem :
    (h : Hooks) (r : Option Exn × Service)
    → r.1.await_join_called ≡ true
    → let s = (join_result r).1 in service_await_join h s ≡ (later_join r.0, s)
unfolding service_await_join
join_again_lem h (none, t) e = ground arith
join_again_lem h (some e, t) p = ground arith

module _ (h : Hooks) (s : Service) where
  -- The first join of a started service runs the virtual function, reports what it threw, and
  -- leaves the service `Completed`, provided that the virtual function leaves the mark that the
  -- service is being joined. Every later join reports the same without running anything, save that
  -- an exception outside std::exception has become a broken promise.
  pub await_join_twice :
      0 < rank s.state
      → s.await_join_called ≡ false
      → (h.do_service_await_join (joining s)).1.await_join_called ≡ true
      → let e = (h.do_service_await_join (joining s)).0 in
        let (o, t) = service_await_join h s in
        (o ≡ first_join e) × (t.state ≡ completed) × (service_await_join h t ≡ (later_join e, t))
  unfolding service_await_join
  await_join_twice p q r = ground (
    arith,
    join_result_lem (h.do_service_await_join (joining s)),
    join_again_lem h (h.do_service_await_join (joining s)),
  )

  join_completes :
      0 < rank s.state → s.await_join_called ≡ false → (service_await_join h s).1.state ≡ completed
  unfolding service_await_join
  join_completes p q = ground (arith, join_result_lem (h.do_service_await_join (joining s)))

abbrev pub killing_now : Service → Service
killing_now s = called kills (record s { state = killing })

abbrev pub KillReturns : Hooks → Service → Type 0
KillReturns h s =
    let (e, t) = h.do_service_kill (killing_now s) in
    (e ≡ none) × (t.await_join_called ≡ false) × (0 < rank t.state)

-- A service that was started and never joined is `Completed` after `call_in_destructor`, so that
-- the CHECK of the destructor holds, provided that the virtual kill returns, and neither joins the
-- service nor makes it startable again.
pub call_in_destructor_lem :
    (h : Hooks) (s : Service)
    → 0 < rank s.state
    → s.await_join_called ≡ false
    → KillReturns h s
    → let t = (call_in_destructor h s).1 in
      (destructible t ≡ true) × (t.call_in_destructor_called ≡ true)
unfolding call_in_destructor destructible advance_state
call_in_destructor_lem h s p q r =
    ground (arith, join_completes h s p q, join_completes h (h.do_service_kill (killing_now s)).1)
