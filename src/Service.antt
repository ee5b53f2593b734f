-- ===== src/Service.antt =====
-- cpp/mrc/src/internal/service.hpp and service.cpp: the life cycle that the runtime's services share.
-- A method is a function from the service to its outcome and the service afterwards. The virtual
-- functions are a parameter: what one returns or throws, and what it does to the service itself
-- (it may call `service_stop` or `service_kill`). One that never returns is not modelled.
pub mod Lifecycle
pub mod History
pub mod Destruction
use mrc.Prelude.{
  ℕ, Bool, true, false, not, ◌&&◌, Option, none, some, List, [], ◌∷◌, ltb, leb, if◌then◌else◌,
}

pub data ServiceState : Type 0 where
  initialized starting running stopping killing completed : ServiceState

-- The value of the enumerator, by which states are compared.
abbrev pub rank : ServiceState → ℕ
rank initialized = 0
rank starting = 1
rank running = 2
rank stopping = 3
rank killing = 4
rank completed = 5

-- `std_exn` derives from std::exception, `other_exn` does not. `must_be_started` and
-- `already_started` are the MrcRuntimeErrors of this class; `broken_promise` is what a future
-- throws whose promise was destroyed unset, and `no_state` what an empty one throws.
pub data Exn : Type 0 where
  already_started must_be_started broken_promise no_state : Exn
  std_exn other_exn : ℕ → Exn

-- `waits`: the call blocks on a future that another thread has to complete. `aborted`: a CHECK failed.
pub data Outcome : Type 0 where
  returned waits aborted : Outcome
  threw : Exn → Outcome

-- What a promise and its shared futures have in common.
pub data Promise : Type 0 where
  pending fulfilled : Promise
  failed : Exn → Promise

pub data Virtual : Type 0 where
  starts lives stops kills joins : Virtual

-- `calls` is no member: it records the virtual functions called so far, the latest first.
pub record Service : Type 0 where
  pub state : ServiceState
  pub live_future : Option Promise
  pub completed_future : Option Promise
  pub await_live_called : Bool
  pub await_join_called : Bool
  pub call_in_destructor_called : Bool
  pub calls : List Virtual

-- The derived class: the exception that a virtual function throws, if any, and its effect.
pub record Hooks : Type 0 where
  pub do_service_start : Service → Option Exn × Service
  pub do_service_await_live : Service → Option Exn × Service
  pub do_service_stop : Service → Option Exn × Service
  pub do_service_kill : Service → Option Exn × Service
  pub do_service_await_join : Service → Option Exn × Service

unfoldable pub init : Service
init = record {
  state = initialized;
  live_future = none;
  completed_future = none;
  await_live_called = false;
  await_join_called = false;
  call_in_destructor_called = false;
  calls = [];
}

abbrev pub is_service_startable : Service → Bool
is_service_startable s = leb (rank s.state) 0

pub is_running : Service → Bool
is_running s = ltb 0 (rank s.state) && ltb (rank s.state) 5

-- `none` is a failed CHECK.
unfoldable pub advance_state : ServiceState → Bool → Service → Option (Bool × Service)
advance_state new_state assert_state_change s =
    if leb (rank s.state) (rank new_state)
    then (if ltb (rank s.state) (rank new_state)
        then some (true, record s { state = new_state })
        else if assert_state_change
        then none
        else some (false, s))
    else none

unfoldable pub ensure_state : ServiceState → Service → Option (Bool × Service)
unfolding advance_state
ensure_state desired_state s =
    if ltb (rank s.state) (rank desired_state)
    then advance_state desired_state false s
    else some (false, s)

abbrev pub called : Virtual → Service → Service
called v s = record s { calls = v ∷ s.calls }

-- What a method does once `advance_state` or `ensure_state` has answered.
abbrev after_change :
    Service → Option (Bool × Service) → (Service → Outcome × Service) → Outcome × Service
after_change s none run = (aborted, s)
after_change s (some (true, s')) run = run s'
after_change s (some (false, s')) run = (returned, s')

-- The same where the answer is not looked at.
abbrev pub settle : Service → Option (Bool × Service) → Outcome → Outcome × Service
settle s none o = (aborted, s)
settle s (some (b, s')) o = (o, s')

-- `future.get()`
abbrev get : Option Promise → Outcome
get none = threw no_state
get (some pending) = waits
get (some fulfilled) = returned
get (some (failed e)) = threw e

abbrev thrown : Option Exn → Outcome
thrown none = returned
thrown (some e) = threw e

-- The `try` block of `service_start` and its handler.
abbrev pub start_result : Option Exn × Service → Outcome × Service
start_result (none, s) = settle s (ensure_state running s) returned
start_result (some e, s) = settle s (advance_state completed false s) (threw e)

-- The promise of `service_await_live` after its `try` block.
abbrev pub live_result : Option Exn × Service → Outcome × Service
live_result (none, s) = (returned, record s { live_future = some fulfilled })
live_result (some e, s) = (threw e, record s { live_future = some (failed e) })

-- On return the promise is fulfilled and then the unwinder sets the state; on an exception the
-- unwinder comes first. An exception that is no std::exception leaves the promise to be destroyed.
abbrev pub join_result : Option Exn × Service → Outcome × Service
join_result (none, s) =
    let s' = record s { completed_future = some fulfilled } in
    settle s' (advance_state completed false s') returned
join_result (some (other_exn n), s) =
    settle s
      (advance_state completed false (record s { completed_future = some (failed broken_promise) }))
      (threw (other_exn n))
join_result (some e, s) =
    settle s (advance_state completed false (record s { completed_future = some (failed e) }))
      (threw e)

module _ (h : Hooks) where
  open h use {
    do_service_start, do_service_await_live, do_service_stop, do_service_kill,
    do_service_await_join,
  }

  unfoldable pub service_start : Service → Outcome × Service
  unfolding advance_state ensure_state
  service_start s =
      if is_service_startable s
      then after_change s (advance_state starting false s)
          (λ s'. start_result (do_service_start (called starts s')))
      else (threw already_started, s)

  unfoldable pub service_await_live : Service → Outcome × Service
  service_await_live s =
      if is_service_startable s
      then (threw must_be_started, s)
      else if s.await_live_called
      then (get s.live_future, s)
      else live_result (
          do_service_await_live
            (called lives (record s { await_live_called = true; live_future = some pending })))

  pub service_stop : Service → Outcome × Service
  unfolding ensure_state
  service_stop s =
      if is_service_startable s
      then (threw must_be_started, s)
      else after_change s (ensure_state stopping s)
          (λ s'. let (e, t) = do_service_stop (called stops s') in (thrown e, t))

  pub service_kill : Service → Outcome × Service
  unfolding ensure_state
  service_kill s =
      if is_service_startable s
      then (threw must_be_started, s)
      else after_change s (ensure_state killing s)
          (λ s'. let (e, t) = do_service_kill (called kills s') in (thrown e, t))

  pub service_await_join : Service → Outcome × Service
  unfolding advance_state
  service_await_join s =
      if is_service_startable s
      then (threw must_be_started, s)
      else if s.await_join_called
      then (get s.completed_future, s)
      else join_result (
          do_service_await_join
            (called joins (record s { await_join_called = true; completed_future = some pending })))

  -- `state` is the one read at the start, before the kill.
  destructor_join : ServiceState → Outcome × Service → Outcome × Service
  unfolding service_await_join
  destructor_join state (returned, s) =
      if leb 5 (rank state) then (returned, s) else service_await_join s
  destructor_join state (o, s) = (o, s)

  destructor_body : Service → Outcome × Service
  unfolding destructor_join service_kill
  destructor_body s =
      if ltb 0 (rank s.state)
      then destructor_join s.state (elim s.state [ running ↦ service_kill s | _ ↦ (returned, s) ])
      else (returned, s)

  pub call_in_destructor : Service → Outcome × Service
  unfolding destructor_body
  call_in_destructor s =
      let (o, s') = destructor_body s in (o, record s' { call_in_destructor_called = true })

-- The CHECK of `~Service`.
pub destructible : Service → Bool
destructible s = elim s.state [ initialized ↦ true | completed ↦ true | _ ↦ false ]

-- The public methods, and a history of calls of them.
pub data Method : Type 0 where
  start await_live stop kill await_join destruct : Method

unfoldable pub call : Hooks → Method → Service → Outcome × Service
call h start s = service_start h s
call h await_live s = service_await_live h s
call h stop s = service_stop h s
call h kill s = service_kill h s
call h await_join s = service_await_join h s
call h destruct s = call_in_destructor h s

pub run : Hooks → List Method → Service → Service
unfolding call
run h [] s = s
run h (m ∷ ms) s = run h ms (call h m s).1
